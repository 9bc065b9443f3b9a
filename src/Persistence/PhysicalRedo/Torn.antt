-- ===== src/Persistence/PhysicalRedo/Torn.antt =====
-- A payload that is cut off is refused as truncated.
use vertex_db.Base.{
  ℕ, zero, suc, ◌<◌, ◌^◌, ◌≡◌, refl, some, List, [], ◌∷◌, ◌++◌, length, arith, Option-cases,
  Bool-cases, inl, inr, All, ◌==◌, append-nil,
}
use vertex_db.Persistence.Binary.{Bytes, read_pod, read_bytes, read_pod_more, read_bytes_more}
use vertex_db.Persistence.PhysicalRedo.{
  PhysicalRedoRecord, truncated, unsupported_value_type, unknown_kind, empty_batch, trailing_bytes,
  Result, ok, error, ◌>>=◌, or_truncated, encode_physical_redos, read_string, read_value,
  read_values, read_record, read_records, read_batch, decode_physical_redos,
}
use vertex_db.Persistence.PhysicalRedo.RoundTrip.{IsWritable, read_batch-encode_physical_redos}

-- What a reader says with more bytes behind, when it did not run out of bytes
abbrev Extends {ℓ} : {A : Type ℓ} → Bytes → Result (A × Bytes) → Result (A × Bytes) → Type ℓ
Extends more (ok (a, rest)) r = r ≡ ok (a, rest ++ more)
Extends more (error truncated) r = Unit
Extends more (error unsupported_value_type) r = r ≡ error unsupported_value_type
Extends more (error unknown_kind) r = r ≡ error unknown_kind
Extends more (error empty_batch) r = r ≡ error empty_batch
Extends more (error trailing_bytes) r = r ≡ error trailing_bytes

Extends-bind :
    {A B : Type 0} (more : Bytes) (r r' : Result (A × Bytes)) (f : A × Bytes → Result (B × Bytes))
    → Extends more r r'
    → ((a : A) (rest : Bytes) → Extends more (f (a, rest)) (f (a, rest ++ more)))
    → Extends more (r >>= f) (r' >>= f)
Extends-bind more (ok (a, rest)) r' f e k = rw e (k a rest)
Extends-bind more (error truncated) r' f e k = tt
Extends-bind more (error unsupported_value_type) r' f e k = rw e refl
Extends-bind more (error unknown_kind) r' f e k = rw e refl
Extends-bind more (error empty_batch) r' f e k = rw e refl
Extends-bind more (error trailing_bytes) r' f e k = rw e refl

pod_Extends :
    (width : ℕ) (bytes more : Bytes)
    → Extends more
        (or_truncated (read_pod width bytes))
        (or_truncated (read_pod width (bytes ++ more)))
pod_Extends width bytes more = elim (Option-cases (read_pod width bytes)) [
  | inl e ↦ rw e tt
  | inr (r, e) ↦ rw e (rw (read_pod_more width bytes more r e) refl)
]

bytes_Extends :
    (n : ℕ) (bytes more : Bytes)
    → Extends more (or_truncated (read_bytes n bytes)) (or_truncated (read_bytes n (bytes ++ more)))
bytes_Extends n bytes more = elim (Option-cases (read_bytes n bytes)) [
  | inl e ↦ rw e tt
  | inr (r, e) ↦ rw e (rw (read_bytes_more n bytes more r e) refl)
]

string_Extends :
    (bytes more : Bytes) → Extends more (read_string bytes) (read_string (bytes ++ more))
unfolding read_string
string_Extends bytes more =
    Extends-bind more _ _ _ (pod_Extends 8 bytes more) (λ n rest. bytes_Extends n rest more)

value_Extends : (bytes more : Bytes) → Extends more (read_value bytes) (read_value (bytes ++ more))
unfolding read_value
value_Extends bytes more = Extends-bind more _ _ _ (pod_Extends 1 bytes more) (λ kind rest.
    elim (Bool-cases (kind == 255)) [
      | inl e ↦ rw e refl
      | inr e ↦ rw e (elim (Bool-cases (kind == 0)) [
        | inl h ↦ rw h (Extends-bind more _ _ _ (pod_Extends 8 rest more) (λ n r. refl))
        | inr h ↦ rw h (elim (Bool-cases (kind == 1)) [
          | inl g ↦ rw g (Extends-bind more _ _ _ (pod_Extends 8 rest more) (λ n r. refl))
          | inr g ↦ rw g (elim (Bool-cases (kind == 2)) [
            | inl k ↦ rw k (Extends-bind more _ _ _ (string_Extends rest more) (λ n r. refl))
            | inr k ↦ rw k refl
          ])
        ])
      ])
    ])

values_Extends :
    (n : ℕ) (bytes more : Bytes)
    → Extends more (read_values n bytes) (read_values n (bytes ++ more))
unfolding read_values
values_Extends zero bytes more = refl
values_Extends (suc n) bytes more =
    Extends-bind more _ _ _ (value_Extends bytes more)
      (λ v rest. Extends-bind more _ _ _ (values_Extends n rest more) (λ row r. refl))

record_Extends :
    (bytes more : Bytes) → Extends more (read_record bytes) (read_record (bytes ++ more))
unfolding read_record
record_Extends bytes more = Extends-bind more _ _ _ (pod_Extends 1 bytes more) (λ kind r1.
    Extends-bind more _ _ _ (string_Extends r1 more) (λ name r2.
      Extends-bind more _ _ _ (pod_Extends 8 r2 more) (λ row_id r3. elim (Bool-cases (kind == 0)) [
        | inl e ↦ rw e (
            Extends-bind more _ _ _ (pod_Extends 8 r3 more)
              (λ count r4. Extends-bind more _ _ _ (values_Extends count r4 more) (λ row r5. refl)))
        | inr e ↦ rw e (elim (Bool-cases (kind == 1)) [ inl h ↦ rw h refl | inr h ↦ rw h refl ])
      ])))

records_Extends :
    (n : ℕ) (bytes more : Bytes)
    → Extends more (read_records n bytes) (read_records n (bytes ++ more))
unfolding read_records
records_Extends zero bytes more = refl
records_Extends (suc n) bytes more =
    Extends-bind more _ _ _ (record_Extends bytes more)
      (λ v rest. Extends-bind more _ _ _ (records_Extends n rest more) (λ row r. refl))

batch_Extends : (bytes more : Bytes) → Extends more (read_batch bytes) (read_batch (bytes ++ more))
unfolding read_batch
batch_Extends bytes more = Extends-bind more _ _ _ (pod_Extends 8 bytes more) (λ count rest.
    elim (Bool-cases (count == 0)) [
      | inl e ↦ rw e refl
      | inr e ↦ rw e (records_Extends count rest more)
    ])

-- A reader that reads all of a payload has run out of bytes on any shorter part of it.
cut_off :
    {A : Type 0} (b : ℕ) (more : Bytes) (r r' : Result (A × Bytes)) (a : A)
    → Extends (b ∷ more) r r'
    → r' ≡ ok (a, [])
    → r ≡ error truncated
cut_off b more (ok (a', [])) r' a e h = absurd (ground arith)
cut_off b more (ok (a', c ∷ rest)) r' a e h = absurd (ground arith)
cut_off b more (error truncated) r' a e h = refl
cut_off b more (error unsupported_value_type) r' a e h = absurd (ground arith)
cut_off b more (error unknown_kind) r' a e h = absurd (ground arith)
cut_off b more (error empty_batch) r' a e h = absurd (ground arith)
cut_off b more (error trailing_bytes) r' a e h = absurd (ground arith)

-- Every encoding of a batch that is cut off, at whatever byte, makes the decoder throw for
-- truncation: no part of a batch is taken for a batch.
pub decode_physical_redos_torn :
    (rs : List PhysicalRedoRecord) (part : Bytes) (b : ℕ) (more : Bytes)
    → All IsWritable rs
    → length rs < 256 ^ 8
    → encode_physical_redos rs ≡ some (part ++ b ∷ more)
    → decode_physical_redos part ≡ error truncated
unfolding decode_physical_redos
decode_physical_redos_torn rs part b more w l h =
    let whole : read_batch (part ++ b ∷ more) ≡ ok (rs, []) =
      rw (← append-nil (part ++ b ∷ more))
        (read_batch-encode_physical_redos rs (part ++ b ∷ more) [] w l h) in
    rw
      (cut_off b more (read_batch part) (read_batch (part ++ b ∷ more)) rs
        (batch_Extends part (b ∷ more)) whole)
      refl
