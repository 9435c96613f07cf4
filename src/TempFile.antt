-- ===== src/TempFile.antt =====
-- The encrypted temporary file that an upload is written to (securedrop/secure_tempfile.py). The cipher of
-- the package cryptography is a parameter, with the place in its key stream written out; the file that
-- Python opens is its bytes and the position. The key, the vector and the name are drawn at random, and
-- stand as arguments. The count of `read` is a natural number.
pub mod Stream
pub mod Refinement
mod Tests
use ab.Base.{
  ℕ, zero, suc, ◌+◌, ◌/◌, ◌%◌, Bool, true, false, Option, none, some, List, [], ◌∷◌, ◌++◌, length,
  take, drop, ltb, leb, ◌&&◌, if◌then◌else◌, Result, ok, err, Exec, pure, raise, gets, or_raise,
  modify, raise_if, ◌>>=◌, ◌>>◌,
}
use ab.Base.Text.{Text, codes}

-- `encryptor.update` and `decryptor.update` of AES-CTR, from a place in the key stream:
-- the key, the initialization vector, the place and the bytes.
pub record Cipher : Type 0 where
  pub encrypt : List ℕ → List ℕ → ℕ → List ℕ → List ℕ
  pub decrypt : List ℕ → List ℕ → ℕ → List ℕ → List ℕ

pub data LastAction : Type 0 where
  init : LastAction
  wrote_last : LastAction
  read_last : LastAction

abbrev pub is_init : LastAction → Bool
is_init init = true
is_init wrote_last = false
is_init read_last = false

abbrev pub is_read : LastAction → Bool
is_read init = false
is_read wrote_last = false
is_read read_last = true

-- AssertionError, of `write` and of `read`; UnicodeEncodeError; ValueError on a closed file;
-- AlreadyFinalized of the cipher.
pub data FileError : Type 0 where
  write_after_read : FileError
  read_before_write : FileError
  unicode_encode_error : FileError
  closed_file : FileError
  already_finalized : FileError

pub record OpenFile : Type 0 where
  pub contents : List ℕ
  pub position : ℕ
  pub closed : Bool
  pub on_disk : Bool

pub record SecureTemporaryFile : Type 0 where
  pub last_action : LastAction
  pub key : List ℕ
  pub iv : List ℕ
  -- How far the encryptor and the decryptor have come.
  pub encryptor : ℕ
  pub decryptor : ℕ
  pub finalized : Bool
  pub filepath : Text
  pub file : OpenFile

-- SecureTemporaryFile.__init__, in a directory whose name does not end in a slash.
unfoldable pub new_file : Text → Text → List ℕ → List ℕ → SecureTemporaryFile
new_file store_dir tmp_file_id key iv = record {
  last_action = init;
  key = key;
  iv = iv;
  encryptor = 0;
  decryptor = 0;
  finalized = false;
  filepath = store_dir ++ (codes "/" ++ (tmp_file_id ++ codes ".aes"));
  file = record { contents = []; position = 0; closed = false; on_disk = true };
}

pub data FileData : Type 0 where
  bytes : List ℕ → FileData
  str : Text → FileData

-- str.encode("utf-8"): a surrogate has no encoding.
unfoldable pub utf8_char : ℕ → Option (List ℕ)
utf8_char c =
    if ltb c 0x80
    then some (c ∷ [])
    else if ltb c 0x800
    then some ((192 + c / 64) ∷ (128 + c % 64) ∷ [])
    else if leb 0xd800 c && leb c 0xdfff
    then none
    else if ltb c 0x10000
    then some ((224 + c / 4096) ∷ (128 + c / 64 % 64) ∷ (128 + c % 64) ∷ [])
    else some
        ((240 + c / 262144) ∷ (128 + c / 4096 % 64) ∷ (128 + c / 64 % 64) ∷ (128 + c % 64) ∷ [])

abbrev pub joined : Option (List ℕ) → Option (List ℕ) → Option (List ℕ)
joined none rest = none
joined (some b) none = none
joined (some b) (some rest) = some (b ++ rest)

unfoldable pub utf8_encode : Text → Option (List ℕ)
utf8_encode [] = some []
utf8_encode (c ∷ s) = joined (utf8_char c) (utf8_encode s)

unfoldable pub as_bytes : FileData → Option (List ℕ)
as_bytes (bytes b) = some b
as_bytes (str s) = utf8_encode s

abbrev pub FileM : Type 0 → Type 0
FileM A = Exec FileError SecureTemporaryFile A

-- The methods of the file that Python opened with "w+b".
abbrev pub written : List ℕ → OpenFile → OpenFile
written b file = record file {
  contents =
      take file.position file.contents ++ (b ++ drop (file.position + length b) file.contents);
  position = file.position + length b;
}

abbrev pub file_write : List ℕ → FileM ℕ
file_write b = do
  closed ← gets (λ f. f.file.closed)
  raise_if closed closed_file
  modify (λ f. record f { file = written b f.file })
  pure (length b)

abbrev pub file_rewind : FileM (Unit {0})
file_rewind = do
  closed ← gets (λ f. f.file.closed)
  raise_if closed closed_file
  modify (λ f. record f { file = record f.file { position = 0 } })

-- file.read(), and file.read(count) for a count that is not 0.
abbrev pub chunk : Option ℕ → List ℕ → List ℕ
chunk none b = b
chunk (some zero) b = b
chunk (some (suc n)) b = take (suc n) b

abbrev pub file_read : Option ℕ → FileM (List ℕ)
file_read count = do
  closed ← gets (λ f. f.file.closed)
  raise_if closed closed_file
  b ← gets (λ f. chunk count (drop f.file.position f.file.contents))
  modify (λ f. record f { file = record f.file { position = f.file.position + length b } })
  pure b

module _ (cipher : Cipher) where
  abbrev pub encryptor_update : List ℕ → FileM (List ℕ)
  encryptor_update b = do
    f ← gets (λ f. f)
    modify (λ f. record f { encryptor = f.encryptor + length b })
    pure (cipher.encrypt f.key f.iv f.encryptor b)

  abbrev pub decryptor_update : List ℕ → FileM (List ℕ)
  decryptor_update b = do
    f ← gets (λ f. f)
    raise_if f.finalized already_finalized
    modify (λ f. record f { decryptor = f.decryptor + length b })
    pure (cipher.decrypt f.key f.iv f.decryptor b)

  unfoldable pub write : FileData → FileM ℕ
  write input = do
    f ← gets (λ f. f)
    raise_if (is_read f.last_action) write_after_read
    modify (λ f. record f { last_action = wrote_last })
    data_as_bytes ← or_raise (as_bytes input) unicode_encode_error
    sealed ← encryptor_update data_as_bytes
    file_write sealed

  -- Before the first read the file is rewound.
  abbrev pub rewind_after_write : LastAction → FileM (Unit {0})
  rewind_after_write init = pure tt
  rewind_after_write wrote_last = do file_rewind; modify (λ f. record f { last_action = read_last })
  rewind_after_write read_last = pure tt

  unfoldable pub read : Option ℕ → FileM (List ℕ)
  read count = do
    f ← gets (λ f. f)
    raise_if (is_init f.last_action) read_before_write
    rewind_after_write f.last_action
    sealed ← file_read count
    decryptor_update sealed

-- `decryptor.finalize`, whose second call is caught, and the `close` of the wrapper, which unlinks the file.
unfoldable pub close : FileM (Unit {0})
close = do
  modify (λ f. record f { finalized = true })
  modify (λ f. record f { file = record f.file { closed = true; on_disk = false } })
