-- ===== src/TempFile/Refinement.antt =====
-- The temporary file keeps the promise of a stream (securedrop/secure_tempfile.py), for a cipher that encrypts
-- byte for byte and is undone at the same place.
use mathlib.Core.List.{append-nil, append_assoc}
use ab.Base.{
  ℕ, zero, suc, ◌+◌, ◌≡◌, refl, sym, ap, ◌∙◌, true, false, Option, none, some, List, [], ◌∷◌, ◌++◌,
  length, take, drop, arith, length-append, take-append-drop, take-append_length,
  drop-append_length, drop_past, take_past, Option-cases, Bool-cases, leb, leb→le, length-take, inl,
  inr,
}
use ab.Base.Text.{Text}
use ab.TempFile.{
  Cipher, init, wrote_last, read_last, is_init, is_read, FileData, as_bytes, SecureTemporaryFile,
  new_file, chunk,
}
use ab.TempFile.Stream.{
  IsStream, Op, write_op, read_op, close_op, Stream, fresh, filling, draining, shut, left, filled,
  refused, wrote, got, promise, promises, step, run, Holds, is_fresh, is_filling, is_draining,
  is_shut, close-Holds, write-encoded, write-failed, write-refused, write-closed, read-open,
  read-rewound, read-refused, read-closed,
}

chunk-append-left : (count : Option ℕ) (b : List ℕ) → chunk count b ++ left count b ≡ b
chunk-append-left none b = append-nil b
chunk-append-left (some zero) b = append-nil b
chunk-append-left (some (suc n)) b = take-append-drop (suc n) b

written_end : (b c : List ℕ) (n k : ℕ) → n ≡ length b → take n b ++ (c ++ drop (n + k) b) ≡ b ++ c
written_end b c n k h =
    rw (take_past b n (omega arith), drop_past b (n + k) (omega arith))
      (ap (λ l. b ++ l) (append-nil c))

module _ (cipher : Cipher) (laws : IsStream cipher) (key iv : List ℕ) where
  abbrev enc : ℕ → List ℕ → List ℕ
  enc = cipher.encrypt key iv

  enc-[] : (place : ℕ) → enc place [] ≡ []
  enc-[] place = go (enc place []) (laws.same_length key iv place [])
    where
      go : (b : List ℕ) → length b ≡ 0 → b ≡ []
      go [] h = refl
      go (x ∷ b) h = absurd (omega arith)

  -- A chunk of the encrypted bytes is the encryption of the chunk.
  chunk-enc :
      (count : Option ℕ) (place : ℕ) (b : List ℕ)
      → chunk count (enc place b) ≡ enc place (chunk count b)
  chunk-enc none place b = refl
  chunk-enc (some zero) place b = refl
  chunk-enc (some (suc n)) place b = elim (Bool-cases (leb (suc n) (length b))) [
    | inl h ↦
        let few = length-take (suc n) b (leb→le _ _ h) in
        ap (λ c. take (suc n) (enc place c)) (sym (take-append-drop (suc n) b))
        ∙ ap (take (suc n)) (laws.piecewise key iv place (take (suc n) b) (drop (suc n) b))
        ∙ take-append_length (enc place (take (suc n) b)) _ (suc n)
            (sym (laws.same_length key iv place (take (suc n) b) ∙ few))
    | inr h ↦
        take_past (enc place b) (suc n) (ground (arith, laws.same_length key iv place b))
        ∙ ap (enc place) (sym (take_past b (suc n) (ground arith)))
  ]

  drop-enc : (used b : List ℕ) (n : ℕ) → n ≡ length used → drop n (enc 0 (used ++ b)) ≡ enc n b
  drop-enc used b n h = rw (laws.piecewise key iv 0 used b) (
      drop-append_length (enc 0 used) _ n (h ∙ sym (laws.same_length key iv 0 used))
      ∙ ap (λ p. enc p b) (omega arith))

module _ (cipher : Cipher) (laws : IsStream cipher) where
  abbrev Kept : Op → SecureTemporaryFile → Stream → Type 0
  Kept op f s =
      ((step cipher op f).0 ≡ (promise op s).0) × Holds cipher (step cipher op f).1 (promise op s).1

  -- A write to a file that holds the encryption of `b` at its end.
  write-filling :
      (input : FileData) (f : SecureTemporaryFile) (b : List ℕ)
      → is_read f.last_action ≡ false
      → f.file.contents ≡ cipher.encrypt f.key f.iv 0 b
      → f.file.position ≡ length b
      → f.encryptor ≡ length b
      → f.decryptor ≡ 0
      → f.file.closed ≡ false
      → f.finalized ≡ false
      → ((step cipher (write_op input) f).0 ≡ (filled b (as_bytes input)).0)
        × Holds cipher (step cipher (write_op input) f).1 (filled b (as_bytes input)).1
  write-filling input f b l c p e d cl fi = elim (Option-cases (as_bytes input)) [
    | inl bad ↦ rw (write-failed cipher f input l bad, bad) (refl, is_filling refl c p e d cl fi)
    | inr (more, good) ↦
        let same : length (cipher.encrypt f.key f.iv f.encryptor more) ≡ length more =
          laws.same_length f.key f.iv f.encryptor more in
        let before : f.file.position ≡ length f.file.contents =
          p ∙ sym (ap length c ∙ laws.same_length f.key f.iv 0 b) in
        rw (write-encoded cipher f input more l cl good, good)
          (
            ap wrote same,
            is_filling refl
                (written_end f.file.contents (cipher.encrypt f.key f.iv f.encryptor more)
                    f.file.position (length (cipher.encrypt f.key f.iv f.encryptor more)) before
                  ∙ ap (λ old. old ++ cipher.encrypt f.key f.iv f.encryptor more) c
                  ∙ ap
                      (λ place.
                        cipher.encrypt f.key f.iv 0 b ++ cipher.encrypt f.key f.iv place more)
                      (e ∙ omega arith)
                  ∙ sym (laws.piecewise f.key f.iv 0 b more))
                (omega (arith, p, same, length-append b more))
                (omega (arith, e, length-append b more)) d cl fi,
          )
  ]

  shut_lem :
      (input : FileData) (f : SecureTemporaryFile)
      → is_read f.last_action ≡ false
      → f.file.closed ≡ true
      → f.finalized ≡ true
      → ((step cipher (write_op input) f).0 ≡ (refused (as_bytes input)).0)
        × Holds cipher (step cipher (write_op input) f).1 (refused (as_bytes input)).1
  shut_lem input f l cl fi = elim (Option-cases (as_bytes input)) [
    | inl bad ↦ rw (write-failed cipher f input l bad, bad) (refl, is_shut cl fi refl)
    | inr (more, good) ↦
        rw (write-closed cipher f input more l cl good, good) (refl, is_shut cl fi refl)
  ]

  write-Holds :
      (input : FileData) (f : SecureTemporaryFile) (s : Stream)
      → Holds cipher f s
      → Kept (write_op input) f s
  write-Holds input f fresh (is_fresh l c p e d cl fi) =
      write-filling input f [] (ap is_read l) (c ∙ sym (enc-[] cipher laws f.key f.iv 0)) p e d cl
        fi
  write-Holds input f (filling b) (is_filling l c p e d cl fi) =
      write-filling input f b (ap is_read l) c p e d cl fi
  write-Holds input f (draining b) (is_draining used l c p d cl fi) =
      rw (write-refused cipher f input (ap is_read l)) (refl, is_draining used l c p d cl fi)
  write-Holds input f (shut init) (is_shut cl fi l) = shut_lem input f (ap is_read l) cl fi
  write-Holds input f (shut wrote_last) (is_shut cl fi l) = shut_lem input f (ap is_read l) cl fi
  write-Holds input f (shut read_last) (is_shut cl fi l) =
      rw (write-refused cipher f input (ap is_read l)) (refl, is_shut cl fi l)

  read-draining :
      (count : Option ℕ) (f : SecureTemporaryFile) (used b : List ℕ)
      → f.last_action ≡ read_last
      → f.file.contents ≡ cipher.encrypt f.key f.iv 0 (used ++ b)
      → f.file.position ≡ length used
      → f.decryptor ≡ length used
      → f.file.closed ≡ false
      → f.finalized ≡ false
      → Kept (read_op count) f (draining b)
  read-draining count f used b l c p d cl fi =
      let sealed : List ℕ = chunk count (drop f.file.position f.file.contents) in
      let e : sealed ≡ cipher.encrypt f.key f.iv (length used) (chunk count b) =
        ap (λ held. chunk count (drop f.file.position held)) c
        ∙ ap (chunk count) (drop-enc cipher laws f.key f.iv used b f.file.position p)
        ∙ chunk-enc cipher laws f.key f.iv count f.file.position b
        ∙ ap (λ place. cipher.encrypt f.key f.iv place (chunk count b)) p in
      let same : length sealed ≡ length (chunk count b) =
        ap length e ∙ laws.same_length f.key f.iv (length used) (chunk count b) in
      rw (read-open cipher f count l cl fi) (
        ap got (
            ap (λ place. cipher.decrypt f.key f.iv place sealed) d
            ∙ ap (cipher.decrypt f.key f.iv (length used)) e
            ∙ laws.undone f.key f.iv (length used) (chunk count b)),
        is_draining (used ++ chunk count b) l
            (c
              ∙ ap (λ all. cipher.encrypt f.key f.iv 0 all)
                  (ap (λ rest. used ++ rest) (sym (chunk-append-left count b))
                    ∙ sym (append_assoc used (chunk count b) (left count b))))
            (omega (arith, p, same, length-append used (chunk count b)))
            (omega (arith, d, same, length-append used (chunk count b))) cl fi,
      )

  read-Holds :
      (count : Option ℕ) (f : SecureTemporaryFile) (s : Stream)
      → Holds cipher f s
      → Kept (read_op count) f s
  read-Holds count f fresh (is_fresh l c p e d cl fi) =
      rw (read-refused cipher f count l) (refl, is_fresh l c p e d cl fi)
  read-Holds count f (filling b) (is_filling l c p e d cl fi) =
      rw (read-rewound cipher f count l cl) (
        read-draining count
          (record f { last_action = read_last; file = record f.file { position = 0 } }) [] b refl c
          refl d cl fi)
  read-Holds count f (draining b) (is_draining used l c p d cl fi) =
      read-draining count f used b l c p d cl fi
  read-Holds count f (shut init) (is_shut cl fi l) =
      rw (read-refused cipher f count l) (refl, is_shut cl fi l)
  read-Holds count f (shut wrote_last) (is_shut cl fi l) =
      rw (read-closed cipher f count (ap is_init l) cl) (refl, is_shut cl fi l)
  read-Holds count f (shut read_last) (is_shut cl fi l) =
      rw (read-closed cipher f count (ap is_init l) cl) (refl, is_shut cl fi l)

  step-Holds : (op : Op) (f : SecureTemporaryFile) (s : Stream) → Holds cipher f s → Kept op f s
  step-Holds (write_op input) f s h = write-Holds input f s h
  step-Holds (read_op count) f s h = read-Holds count f s h
  step-Holds close_op f s h = close-Holds cipher f s h

  run-promises :
      (ops : List Op) (f : SecureTemporaryFile) (s : Stream)
      → Holds cipher f s
      → run cipher ops f ≡ promises ops s
  unfolding run
  run-promises [] f s h = refl
  run-promises (op ∷ ops) f s h =
      let (same, next) = step-Holds op f s h in
      ap (λ o. o ∷ run cipher ops (step cipher op f).1) same
      ∙ ap (λ os. (promise op s).0 ∷ os)
          (run-promises ops (step cipher op f).1 (promise op s).1 next)

  -- Whatever is called on a new file, in whatever order, each call returns or raises what it does for the plain
  -- stream: bytes are appended until the first read, read once from the start, and neither after `close`.
  pub run-new_file :
      (store_dir tmp_file_id : Text) (key iv : List ℕ) (ops : List Op)
      → run cipher ops (new_file store_dir tmp_file_id key iv) ≡ promises ops fresh
  unfolding new_file
  run-new_file store_dir tmp_file_id key iv ops =
      run-promises ops (new_file store_dir tmp_file_id key iv) fresh
        (is_fresh refl refl refl refl refl refl refl)
