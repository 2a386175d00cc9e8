-- ===== src/Pipe.antt =====
-- pipe/src/tokenizer.rs: the tokenizer of the text that arrives on a socket.
-- `Utf8` turns bytes into characters and `Tokenizer` characters into tokens. `Json` has the matchers
-- of pipe/src/parse_json.rs, and `Parser` is the stack machine of pipe/src/parser.rs.
pub mod Utf8
pub mod Tokenizer
pub mod Json
pub mod Parser
pub mod Values
pub mod Commands
