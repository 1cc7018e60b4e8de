-- ===== src/Uploads/Stream.antt =====
-- `stream_upload`: a body is read in chunks up to a limit, with its hash, its first and its last bytes.
use mathlib.Core.Option
use workflow_forge.Documents.Keys.{content_hash}
use workflow_forge.Base.{
  ℕ, List, [], ◌+◌, Result, Option, drop, none, length, ◌>>◌, ◌>>=◌, ◌-◌, suc, raise_if, ltb, some,
  ◌==◌, upload_validation, err, empty_file, file_too_large, stream_read_failed, if◌then◌else◌, ok,
  ◌++◌, is_empty, take, zero,
}
use workflow_forge.Text.{Text}
use workflow_forge.Documents.Naming.{Unicode}

abbrev pub Bytes : Type 0
Bytes = List ℕ

-- What `await stream.read(chunk_size)` comes to: a chunk, which is empty at the end, or an exception.
pub data Read : Type 0 where
  chunk : Bytes → Read
  broken : Read

-- The answers of a stream, in the order of the calls.
abbrev pub UploadStream : Type 0
UploadStream = ℕ → Read

-- The variables of the loop
pub record Scan : Type 0 where
  pub body : Bytes
  pub byte_size : ℕ
  pub prefix : Bytes
  pub suffix : Bytes

pub record StreamedUpload : Type 0 where
  pub body : Bytes
  pub content_hash : Text
  pub byte_size : ℕ
  pub prefix : Bytes
  pub suffix : Bytes

abbrev pub start : Scan
start = record { body = []; byte_size = 0; prefix = []; suffix = [] }

abbrev pub validation_prefix_bytes : ℕ
validation_prefix_bytes = 8192

-- `xs[-n:]` for a positive `n`
abbrev pub last : ℕ → Bytes → Bytes
last n xs = drop (length xs - n) xs

-- One round of the loop, with a chunk that is not empty
unfoldable pub take_in : (max_bytes : ℕ) → Bytes → Scan → Result Scan
take_in max_bytes bytes s =
    let byte_size = s.byte_size + length bytes in
    do
      raise_if (ltb max_bytes byte_size) (upload_validation file_too_large)
      ok (record {
        body = s.body ++ bytes;
        byte_size = byte_size;
        prefix =
            if ltb (length s.prefix) validation_prefix_bytes
            then s.prefix ++ take (validation_prefix_bytes - length s.prefix) bytes
            else s.prefix;
        suffix = last 16 (s.suffix ++ bytes);
      })

-- The loop, from the call of number `k` on; `none` is a loop that has not ended within the fuel.
unfoldable pub read_loop :
    (fuel max_bytes : ℕ) → UploadStream → (k : ℕ) → Scan → Option (Result Scan)
read_loop zero max_bytes stream k s = none
read_loop (suc fuel) max_bytes stream k s = elim (stream k) [
  | broken ↦ some (err (upload_validation stream_read_failed))
  | chunk bytes ↦ if is_empty bytes then some (ok s) else elim (take_in max_bytes bytes s) [
    | err e ↦ some (err e)
    | ok s' ↦ read_loop fuel max_bytes stream (k + 1) s'
  ]
]

-- The rounds that the loop can make: each one but the last takes in a byte at least, and the last one
-- meets the end or goes over the limit.
abbrev pub enough : ℕ → ℕ
enough max_bytes = max_bytes + 1

module _ (unicode : Unicode) (sha256 : Bytes → Text) where
  -- What follows the loop
  unfoldable pub finish : Scan → Result StreamedUpload
  finish s = do
    raise_if (s.byte_size == 0) (upload_validation empty_file)
    digest ← content_hash unicode (sha256 s.body)
    ok (record {
      body = s.body;
      content_hash = digest;
      byte_size = s.byte_size;
      prefix = s.prefix;
      suffix = s.suffix;
    })

  unfoldable pub stream_upload : (max_bytes : ℕ) → UploadStream → Option (Result StreamedUpload)
  stream_upload max_bytes stream =
      Option.map (λ r. r >>= finish) (read_loop (enough max_bytes) max_bytes stream 0 start)
