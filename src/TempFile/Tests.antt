-- ===== src/TempFile/Tests.antt =====
-- A temporary file under a toy cipher, and an instance of the theorem.
use ab.Base.{ℕ, ◌+◌, ◌-◌, ◌≡◌, refl, ap, ◌∙◌, none, some, List, [], ◌∷◌, ◌++◌, length, arith}
use ab.Base.Text.{codes}
use ab.TempFile.{
  Cipher, bytes, str, new_file, write_after_read, closed_file, as_bytes, utf8_char, utf8_encode,
}
use ab.TempFile.Stream.{
  IsStream, Op, write_op, read_op, close_op, wrote, got, done, failed, fresh, promises, run,
}
use ab.TempFile.Refinement.{run-new_file}

-- The place of a byte, added to it.
abbrev shift_up : ℕ → List ℕ → List ℕ
shift_up place [] = []
shift_up place (x ∷ b) = (x + place) ∷ shift_up (place + 1) b

abbrev shift_down : ℕ → List ℕ → List ℕ
shift_down place [] = []
shift_down place (x ∷ b) = (x - place) ∷ shift_down (place + 1) b

abbrev toy : Cipher
toy = record {
  encrypt = λ key iv place b. shift_up place b;
  decrypt = λ key iv place b. shift_down place b;
}

length-shift_up : (place : ℕ) (b : List ℕ) → length (shift_up place b) ≡ length b
length-shift_up place [] = refl
length-shift_up place (x ∷ b) = omega (arith, length-shift_up (place + 1) b)

shift_up-append :
    (place : ℕ) (b c : List ℕ)
    → shift_up place (b ++ c) ≡ shift_up place b ++ shift_up (place + length b) c
shift_up-append place [] c = ap (λ p. shift_up p c) (omega arith)
shift_up-append place (x ∷ b) c =
    ap (λ l. (x + place) ∷ l)
      (shift_up-append (place + 1) b c
        ∙ ap (λ p. shift_up (place + 1) b ++ shift_up p c) (omega arith))

shift_down-shift_up : (place : ℕ) (b : List ℕ) → shift_down place (shift_up place b) ≡ b
shift_down-shift_up place [] = refl
shift_down-shift_up place (x ∷ b) =
    ap (λ y. y ∷ shift_down (place + 1) (shift_up (place + 1) b)) (omega arith)
    ∙ ap (λ l. x ∷ l) (shift_down-shift_up (place + 1) b)

toy-IsStream : IsStream toy
toy-IsStream = record {
  same_length = λ key iv place b. length-shift_up place b;
  piecewise = λ key iv place b c. shift_up-append place b c;
  undone = λ key iv place b. shift_down-shift_up place b;
}

abbrev ops : List Op
ops =
    write_op (bytes (1 ∷ 2 ∷ 3 ∷ []))
    ∷ write_op (str (codes "ab"))
    ∷ read_op (some 2)
    ∷ write_op (bytes [])
    ∷ read_op none
    ∷ read_op (some 4)
    ∷ close_op
    ∷ read_op none
    ∷ []

promised :
    promises ops fresh
    ≡ wrote 3
      ∷ wrote 2
      ∷ got (1 ∷ 2 ∷ [])
      ∷ failed write_after_read
      ∷ got (3 ∷ b'a' ∷ b'b' ∷ [])
      ∷ got []
      ∷ done
      ∷ failed closed_file
      ∷ []
unfolding as_bytes utf8_encode utf8_char
promised = refl

run-new_file_example :
    run toy ops (new_file (codes "/tmp") (codes "x1") (1 ∷ []) (2 ∷ [])) ≡ promises ops fresh
run-new_file_example =
    run-new_file toy toy-IsStream (codes "/tmp") (codes "x1") (1 ∷ []) (2 ∷ []) ops
