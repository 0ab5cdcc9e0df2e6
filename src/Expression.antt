-- ===== src/Expression.antt =====
-- core/expression.py
pub mod Ast
pub mod Compare
pub mod Eval
pub mod Lexicon
pub mod Template
pub mod Lexer
pub mod Reply
pub mod Parser
pub mod Source
