-- ===== src/TempFile/Stream.antt =====
-- What a temporary file promises (securedrop/secure_tempfile.py): bytes are appended, then read once from the
-- start, and the file does neither after it is closed. The encryption does not show.
use ab.Base.{
  ℕ, zero, suc, ◌+◌, ◌≡◌, refl, true, false, Option, none, some, List, [], ◌∷◌, ◌++◌, length, drop,
  arith, Result, ok, err,
}
use ab.TempFile.{
  Cipher, LastAction, init, wrote_last, read_last, FileError, write_after_read, read_before_write,
  unicode_encode_error, closed_file, is_init, is_read, written, FileData, as_bytes,
  SecureTemporaryFile, chunk, write, read, close,
}

-- AES-CTR: a byte for a byte, piece by piece, and decryption at the same place undoes encryption.
pub record IsStream (cipher : Cipher) : Type 0 where
  pub same_length :
      (key iv : List ℕ) (place : ℕ) (b : List ℕ) → length (cipher.encrypt key iv place b) ≡ length b
  pub piecewise :
      (key iv : List ℕ) (place : ℕ) (b c : List ℕ)
      → cipher.encrypt key iv place (b ++ c)
        ≡ cipher.encrypt key iv place b ++ cipher.encrypt key iv (place + length b) c
  pub undone :
      (key iv : List ℕ) (place : ℕ) (b : List ℕ)
      → cipher.decrypt key iv place (cipher.encrypt key iv place b) ≡ b

pub data Op : Type 0 where
  write_op : FileData → Op
  read_op : Option ℕ → Op
  close_op : Op

pub data Outcome : Type 0 where
  wrote : ℕ → Outcome
  got : List ℕ → Outcome
  done : Outcome
  failed : FileError → Outcome

-- What is promised: the bytes still to be read, in the clear.
pub data Stream : Type 0 where
  fresh : Stream
  filling : List ℕ → Stream
  draining : List ℕ → Stream
  shut : LastAction → Stream

abbrev pub filled : List ℕ → Option (List ℕ) → Outcome × Stream
filled b none = (failed unicode_encode_error, filling b)
filled b (some c) = (wrote (length c), filling (b ++ c))

abbrev pub refused : Option (List ℕ) → Outcome × Stream
refused none = (failed unicode_encode_error, shut wrote_last)
refused (some c) = (failed closed_file, shut wrote_last)

-- What is left after a read.
abbrev pub left : Option ℕ → List ℕ → List ℕ
left none b = []
left (some zero) b = []
left (some (suc n)) b = drop (suc n) b

abbrev pub promise : Op → Stream → Outcome × Stream
promise (write_op input) fresh = filled [] (as_bytes input)
promise (write_op input) (filling b) = filled b (as_bytes input)
promise (write_op input) (draining b) = (failed write_after_read, draining b)
promise (write_op input) (shut init) = refused (as_bytes input)
promise (write_op input) (shut wrote_last) = refused (as_bytes input)
promise (write_op input) (shut read_last) = (failed write_after_read, shut read_last)
promise (read_op count) fresh = (failed read_before_write, fresh)
promise (read_op count) (filling b) = (got (chunk count b), draining (left count b))
promise (read_op count) (draining b) = (got (chunk count b), draining (left count b))
promise (read_op count) (shut init) = (failed read_before_write, shut init)
promise (read_op count) (shut wrote_last) = (failed closed_file, shut wrote_last)
promise (read_op count) (shut read_last) = (failed closed_file, shut read_last)
promise close_op fresh = (done, shut init)
promise close_op (filling b) = (done, shut wrote_last)
promise close_op (draining b) = (done, shut read_last)
promise close_op (shut a) = (done, shut a)

abbrev pub promises : List Op → Stream → List Outcome
promises [] s = []
promises (op ∷ ops) s = let (o, t) = promise op s in o ∷ promises ops t

abbrev pub wrote_of : Result FileError ℕ × SecureTemporaryFile → Outcome × SecureTemporaryFile
wrote_of (ok n, f) = (wrote n, f)
wrote_of (err e, f) = (failed e, f)

abbrev pub got_of : Result FileError (List ℕ) × SecureTemporaryFile → Outcome × SecureTemporaryFile
got_of (ok b, f) = (got b, f)
got_of (err e, f) = (failed e, f)

abbrev pub done_of :
    Result FileError (Unit {0}) × SecureTemporaryFile → Outcome × SecureTemporaryFile
done_of (ok u, f) = (done, f)
done_of (err e, f) = (failed e, f)

module _ (cipher : Cipher) where
  abbrev pub step : Op → SecureTemporaryFile → Outcome × SecureTemporaryFile
  step (write_op input) f = wrote_of (write cipher input f)
  step (read_op count) f = got_of (read cipher count f)
  step close_op f = done_of (close f)

  unfoldable pub run : List Op → SecureTemporaryFile → List Outcome
  run [] f = []
  run (op ∷ ops) f = let (o, g) = step op f in o ∷ run ops g

  -- The file holds the bytes of a stream: `used` are read already.
  pub data Holds (f : SecureTemporaryFile) : Stream → Type 0 where
    is_fresh :
        f.last_action ≡ init
        → f.file.contents ≡ []
        → f.file.position ≡ 0
        → f.encryptor ≡ 0
        → f.decryptor ≡ 0
        → f.file.closed ≡ false
        → f.finalized ≡ false
        → Holds f fresh
    is_filling :
        {b : List ℕ}
        → f.last_action ≡ wrote_last
        → f.file.contents ≡ cipher.encrypt f.key f.iv 0 b
        → f.file.position ≡ length b
        → f.encryptor ≡ length b
        → f.decryptor ≡ 0
        → f.file.closed ≡ false
        → f.finalized ≡ false
        → Holds f (filling b)
    is_draining :
        (used : List ℕ) {b : List ℕ}
        → f.last_action ≡ read_last
        → f.file.contents ≡ cipher.encrypt f.key f.iv 0 (used ++ b)
        → f.file.position ≡ length used
        → f.decryptor ≡ length used
        → f.file.closed ≡ false
        → f.finalized ≡ false
        → Holds f (draining b)
    is_shut :
        {a : LastAction}
        → f.file.closed ≡ true
        → f.finalized ≡ true
        → f.last_action ≡ a
        → Holds f (shut a)

  pub close-Holds :
      (f : SecureTemporaryFile) (s : Stream)
      → Holds f s
      → ((step close_op f).0 ≡ (promise close_op s).0)
        × Holds (step close_op f).1 (promise close_op s).1
  unfolding close
  close-Holds f fresh (is_fresh l c p e d cl fi) = (refl, is_shut refl refl l)
  close-Holds f (filling b) (is_filling l c p e d cl fi) = (refl, is_shut refl refl l)
  close-Holds f (draining b) (is_draining used l c p d cl fi) = (refl, is_shut refl refl l)
  close-Holds f (shut a) (is_shut cl fi l) = (refl, is_shut refl refl l)

  -- `write` by its cases.
  pub write-encoded :
      (f : SecureTemporaryFile) (input : FileData) (c : List ℕ)
      → is_read f.last_action ≡ false
      → f.file.closed ≡ false
      → as_bytes input ≡ some c
      → write cipher input f ≡ (
        ok (length (cipher.encrypt f.key f.iv f.encryptor c)),
        record f {
          last_action = wrote_last;
          encryptor = f.encryptor + length c;
          file = written (cipher.encrypt f.key f.iv f.encryptor c) f.file;
        },
      )
  unfolding write
  write-encoded f input c a cl e = ground arith

  pub write-failed :
      (f : SecureTemporaryFile) (input : FileData)
      → is_read f.last_action ≡ false
      → as_bytes input ≡ none
      → write cipher input f ≡ (err unicode_encode_error, record f { last_action = wrote_last })
  unfolding write
  write-failed f input a e = ground arith

  pub write-refused :
      (f : SecureTemporaryFile) (input : FileData)
      → is_read f.last_action ≡ true
      → write cipher input f ≡ (err write_after_read, f)
  unfolding write
  write-refused f input a = ground arith

  pub write-closed :
      (f : SecureTemporaryFile) (input : FileData) (c : List ℕ)
      → is_read f.last_action ≡ false
      → f.file.closed ≡ true
      → as_bytes input ≡ some c
      → write cipher input f ≡ (
        err closed_file,
        record f { last_action = wrote_last; encryptor = f.encryptor + length c },
      )
  unfolding write
  write-closed f input c a cl e = ground arith

  pub read-open :
      (f : SecureTemporaryFile) (count : Option ℕ)
      → f.last_action ≡ read_last
      → f.file.closed ≡ false
      → f.finalized ≡ false
      → let sealed = chunk count (drop f.file.position f.file.contents) in
        read cipher count f ≡ (
          ok (cipher.decrypt f.key f.iv f.decryptor sealed),
          record f {
            decryptor = f.decryptor + length sealed;
            file = record f.file { position = f.file.position + length sealed };
          },
        )
  unfolding read
  read-open f count l cl fi = ground arith

  -- The first read starts at the front.
  pub read-rewound :
      (f : SecureTemporaryFile) (count : Option ℕ)
      → f.last_action ≡ wrote_last
      → f.file.closed ≡ false
      → read cipher count f
        ≡ read cipher count
            (record f { last_action = read_last; file = record f.file { position = 0 } })
  unfolding read
  read-rewound f count l cl = ground arith

  pub read-refused :
      (f : SecureTemporaryFile) (count : Option ℕ)
      → f.last_action ≡ init
      → read cipher count f ≡ (err read_before_write, f)
  unfolding read
  read-refused f count l = ground arith

  pub read-closed :
      (f : SecureTemporaryFile) (count : Option ℕ)
      → is_init f.last_action ≡ false
      → f.file.closed ≡ true
      → read cipher count f ≡ (err closed_file, f)
  unfolding read
  read-closed f count l cl = ground arith
