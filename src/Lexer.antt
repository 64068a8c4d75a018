-- ===== src/Lexer.antt =====
-- packages/sveltego/internal/lexer: the tokens of a template, with the mode stack of `Lexer`.
mod Tokens
mod Cursor
mod Loops
mod State
mod Modes
mod Moves
mod Unroll
mod Literals
mod Nesting
mod Skips
mod Positions
mod Mustache
mod Raw
mod Texts
mod Tags
mod Next
mod Spans
mod Progress
mod Calls
mod Laws
mod Ends
mod Stuck
mod Tests
