-- ===== src/Node/PoolMode.antt =====
-- The mode of mining, node/src/pool_mode_handle.rs, and its choice at the start in node/src/command.rs.
-- A string is its characters' numbers. `io::Error` is one value: nothing tells its kinds apart.
pub mod Persist
use lumenyx.Prelude.{
  ℕ, ◌+◌, Bool, true, false, ◌&&◌, ◌||◌, Option, none, some, List, [], ◌∷◌, ◌++◌, map, leb, ◌==◌,
  if◌then◌else◌, bytes_eq, length, take, Result, ok, err,
}

pub data IoError : Type 0 where
  io_error : IoError

-- The machine: whether the local data directory is known, whether it and `pool_mode.conf` there can be
-- opened for writing and for reading, how many bytes a write gets to the disk before it fails, and the
-- contents of the file, if it exists.
pub record Disk : Type 0 where
  pub known : Bool
  pub writable : Bool
  pub readable : Bool
  pub room : ℕ
  pub pool_mode_conf : Option (List ℕ)

-- `char::is_whitespace`
unfoldable pub is_whitespace : ℕ → Bool
is_whitespace c =
    (leb 9 c && leb c 13)
    || (c == 32)
    || (c == 133)
    || (c == 160)
    || (c == 5760)
    || (leb 8192 c && leb c 8202)
    || (c == 8232)
    || (c == 8233)
    || (c == 8239)
    || (c == 8287)
    || (c == 12288)

-- `str::trim`
unfoldable pub trim_start : List ℕ → List ℕ
unfolding is_whitespace
trim_start [] = []
trim_start (c ∷ cs) = if is_whitespace c then trim_start cs else c ∷ cs

unfoldable pub trim_end : List ℕ → List ℕ
unfolding is_whitespace
trim_end [] = []
trim_end (c ∷ cs) = elim (trim_end cs) [
  | [] ↦ if is_whitespace c then [] else c ∷ []
  | d ∷ ds ↦ c ∷ d ∷ ds
]

-- `to_ascii_lowercase`
unfoldable pub to_ascii_lowercase : List ℕ → List ℕ
to_ascii_lowercase s = map (λ c. if leb 65 c && leb c 90 then c + 32 else c) s

abbrev pub words_on : List (List ℕ)
words_on = (b'1' ∷ []) ∷ (b't' ∷ b'r' ∷ b'u' ∷ b'e' ∷ []) ∷ (b'p' ∷ b'o' ∷ b'o' ∷ b'l' ∷ []) ∷ []

abbrev pub words_off : List (List ℕ)
words_off =
    (b'0' ∷ []) ∷ (b'f' ∷ b'a' ∷ b'l' ∷ b's' ∷ b'e' ∷ []) ∷ (b's' ∷ b'o' ∷ b'l' ∷ b'o' ∷ []) ∷ []

-- Whether a word is one of a list.
abbrev pub is_one_of : List (List ℕ) → List ℕ → Bool
is_one_of [] s = false
is_one_of (w ∷ ws) s = if bytes_eq s w then true else is_one_of ws s

-- The `match` on the contents.
unfoldable pub parse_mode : List ℕ → Result IoError (Option Bool)
unfolding trim_start trim_end to_ascii_lowercase
parse_mode contents =
    let s = to_ascii_lowercase (trim_end (trim_start contents)) in
    if is_one_of words_on s
    then ok (some true)
    else if is_one_of words_off s
    then ok (some false)
    else err io_error

abbrev pub parse_file : (readable : Bool) → Option (List ℕ) → Result IoError (Option Bool)
parse_file readable none = ok none
parse_file readable (some contents) = if readable then parse_mode contents else err io_error

-- `read_persisted_pool_mode`
unfoldable pub read_persisted_pool_mode : Disk → Result IoError (Option Bool)
unfolding parse_mode
read_persisted_pool_mode disk =
    if disk.known then parse_file disk.readable disk.pool_mode_conf else err io_error

abbrev pub mode_text : Bool → List ℕ
mode_text true = b't' ∷ b'r' ∷ b'u' ∷ b'e' ∷ 10 ∷ []
mode_text false = b'f' ∷ b'a' ∷ b'l' ∷ b's' ∷ b'e' ∷ 10 ∷ []

-- `write_persisted_pool_mode`: the result, and the disk after. `fs::write` truncates the file when it
-- opens it, so that a write that fails leaves what got to the disk before.
unfoldable pub write_persisted_pool_mode : Bool → Disk → Result IoError (Unit {0}) × Disk
write_persisted_pool_mode enabled disk =
    let text = mode_text enabled in
    if disk.known && disk.writable
    then (
      if leb (length text) disk.room then ok tt else err io_error,
      record disk { pool_mode_conf = some (take disk.room text) },
    )
    else (err io_error, disk)

-- The mode at the start: what is kept on the disk, or else the flag of the command line.
unfoldable pub start_mode : Bool → Disk → Bool
unfolding read_persisted_pool_mode
start_mode cli_pool_mode disk = elim (read_persisted_pool_mode disk) [
  | ok (some mode) ↦ mode
  | ok none ↦ cli_pool_mode
  | err _ ↦ cli_pool_mode
]
