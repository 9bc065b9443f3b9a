-- ===== src/Parser.antt =====
-- parser/: from the text of a statement to its tokens.
pub mod Tokenizer
