-- ===== src/Encoding/Sound.antt =====
-- What a successful `Reader` call (core/encoding.py) says of the bytes that it passed: no two inputs
-- give one value by different bytes.
use tal_cash.Base.{
  All-append_left, All-append_right, Bytes, Error, IsBytes, Result, [], ap, append-nil,
  append_assoc, arith, bind, bind-eq-ok, drop, err, length, length-append, length-take, ok, refl,
  subst, sym, take, take-append-drop, ℕ, ◌++◌, ◌+◌, ◌<◌, ◌^◌, ◌∙◌, ◌∷◌, ◌≡◌, ◌≤◌,
}
use tal_cash.Encoding.{
  Reader, Reading, expect_end, first_byte, from_bytes, new_reader, pure, read_all, read_u8,
  read_uint, read_var8, take_bytes, to_bytes, ◌>>=◌,
}
use tal_cash.Encoding.BigEndian.{from_bytes-lt, to_bytes-from_bytes}
use tal_cash.Encoding.Reads.{At, At-advance, At-new_reader, advance, drop-At, length-At}

pair-injective :
    {A : Type 0} (a b : A) (r r' : Reader)
    → ◌≡◌ {A = Result (A × Reader)} (ok (a, r)) (ok (b, r'))
    → (a ≡ b) × (r ≡ r')
pair-injective a b r r' e = (cc, cc)

-- What a call that started on `bs` passed, and what it left.
pub record Used {A : Type 0} (R : A → Bytes → Type 0) (r : Reader) (bs : Bytes) (a : A)
    (r' : Reader) : Type 0 where
  pub used : Bytes
  pub left : Bytes
  pub whole : bs ≡ used ++ left
  pub moved : r' ≡ advance (length used) r
  pub holds : R a used

-- If `p` returns `a` after passing `used`, then `R a used`.
pub record Sound {A : Type 0} (p : Reading A) (R : A → Bytes → Type 0) : Type 0 where
  pub run :
      (r : Reader) (bs : Bytes) (a : A) (r' : Reader)
      → At r bs
      → IsBytes bs
      → p r ≡ ok (a, r')
      → Used R r bs a r'

At-moved :
    (r r' : Reader) (bs used left : Bytes)
    → At r bs
    → bs ≡ used ++ left
    → r' ≡ advance (length used) r
    → At r' left
At-moved r r' bs used left at whole moved =
    rw moved (At-advance r used left (subst (At r) whole at))

module _ {A : Type 0} {R : A → Bytes → Type 0} where
  Used-after :
      (r r' r'' : Reader) (bs used left : Bytes) (a : A)
      → bs ≡ used ++ left
      → r' ≡ advance (length used) r
      → Used (λ b later. R b (used ++ later)) r' left a r''
      → Used R r bs a r''
  Used-after r r' r'' bs used left a whole moved u = record {
    used = used ++ u.used;
    left = u.left;
    whole = whole ∙ ap (◌++◌ used) u.whole ∙ sym (append_assoc used u.used u.left);
    moved =
        u.moved
        ∙ ap (advance (length u.used)) moved
        ∙ ap (λ k. record r { pos = k }) {x = r.pos + length used + length u.used}
            {y = r.pos + length (used ++ u.used)} (omega (arith, length-append used u.used));
    holds = u.holds;
  }

pub Sound-bind :
    {A B : Type 0} (p : Reading A) (f : A → Reading B) {R : A → Bytes → Type 0}
    {Q : B → Bytes → Type 0}
    → Sound p R
    → ((a : A) (used : Bytes) → R a used → Sound (f a) (λ b later. Q b (used ++ later)))
    → Sound (p >>= f) Q
unfolding ◌>>=◌
Sound-bind p f {Q = Q} hp hf = record {
  run = λ r bs b r'' at valid e.
      let ((a, r'), first, second) = bind-eq-ok (p r) (λ (a, r'). f a r') e in
      let u = hp.run r bs a r' at valid first in
      Used-after r r' r'' bs u.used u.left b u.whole u.moved (
        (hf a u.used u.holds).run r' u.left b r''
          (At-moved r r' bs u.used u.left at u.whole u.moved)
          (All-append_right _ u.used u.left (subst IsBytes u.whole valid)) second);
}

pub Sound-pure : {A : Type 0} {R : A → Bytes → Type 0} (a : A) → R a [] → Sound (pure a) R
Sound-pure {R = R} a h = record {
  run = λ r bs b r' at valid e. record {
    used = [];
    left = bs;
    whole = refl;
    moved =
        sym (pair-injective a b r r' e).1
        ∙ ap (λ k. record r { pos = k }) {x = r.pos} {y = r.pos + 0} (omega arith);
    holds = subst (λ x. R x []) (pair-injective a b r r' e).0 h;
  };
}

pub Sound-err : {A : Type 0} {R : A → Bytes → Type 0} (e : Error) → Sound (λ r. err e) R
Sound-err e = record { run = λ r bs b r' at valid h. cc }

take_bytes-eq-ok :
    (n : ℕ) (r : Reader) (bs b : Bytes) (r' : Reader)
    → At r bs
    → take_bytes n r ≡ ok (b, r')
    → (b ≡ take n bs) × (r' ≡ advance n r) × (n ≤ length bs)
unfolding take_bytes
take_bytes-eq-ok n r bs b r' at e = ground (arith, length-At r bs at, drop-At r bs at)

pub Sound-take_bytes :
    (n : ℕ) → Sound (take_bytes n) (λ bs used. (used ≡ bs) × (length bs ≡ n) × IsBytes bs)
Sound-take_bytes n = record {
  run = λ r bs b r' at valid e.
      let (same, moved, size) = take_bytes-eq-ok n r bs b r' at e in
      let len : length (take n bs) ≡ n = omega (arith, length-take n bs) in
      let cut : take n bs ++ drop n bs ≡ bs = take-append-drop n bs in
      record {
        used = take n bs;
        left = drop n bs;
        whole = sym cut;
        moved = moved ∙ ap (λ k. record r { pos = r.pos + k }) (sym len);
        holds = (
          sym same,
          rw same len,
          rw same (All-append_left _ (take n bs) (drop n bs) (subst IsBytes (sym cut) valid)),
        );
      };
}

pub Sound-weaken :
    {A : Type 0} {p : Reading A} {R Q : A → Bytes → Type 0}
    → Sound p R
    → ((a : A) (used : Bytes) → R a used → Q a used)
    → Sound p Q
Sound-weaken {Q = Q} hp k = record {
  run = λ r bs a r' at valid e.
      let u = hp.run r bs a r' at valid e in
      record {
        used = u.used;
        left = u.left;
        whole = u.whole;
        moved = u.moved;
        holds = k a u.used u.holds;
      };
}

pub Sound-read_uint :
    (n : ℕ) → Sound (read_uint n) (λ v used. (used ≡ to_bytes n v) × (v < 256 ^ n))
unfolding read_uint
Sound-read_uint n =
    Sound-bind (take_bytes n) _ (Sound-take_bytes n) λ chunk used (same, size, valid).
      Sound-pure (from_bytes chunk) (
        append-nil used ∙ same ∙ sym (rw size at (to_bytes-from_bytes chunk valid)),
        rw size at (from_bytes-lt chunk valid),
      )

single : (bs : Bytes) → length bs ≡ 1 → bs ≡ first_byte bs ∷ []
single (b ∷ []) h = refl
single [] h = absurd (omega arith)
single (b ∷ c ∷ bs) h = absurd (omega arith)

first_byte-lt : (bs : Bytes) → IsBytes bs → first_byte bs < 256
first_byte-lt [] h = omega arith
first_byte-lt (b ∷ bs) h = h.0

pub Sound-read_u8 : Sound read_u8 (λ v used. (used ≡ v ∷ []) × (v < 256))
unfolding read_u8
Sound-read_u8 = Sound-bind (take_bytes 1) _ (Sound-take_bytes 1) λ chunk used (same, size, valid).
    Sound-pure (first_byte chunk)
      (append-nil used ∙ same ∙ single chunk size, first_byte-lt chunk valid)

pub Sound-read_var8 :
    Sound read_var8 (λ bs used. (used ≡ length bs ∷ bs) × (length bs < 256) × IsBytes bs)
unfolding read_var8
Sound-read_var8 = Sound-bind read_u8 _ Sound-read_u8 λ size u (same, small).
    Sound-weaken (Sound-take_bytes size)
      λ bs v (same', len, valid). (rw (same, same', len), omega arith, valid)

nil_of_length : (xs : Bytes) → length xs ≡ 0 → xs ≡ []
nil_of_length [] h = refl
nil_of_length (x ∷ xs) h = absurd (omega arith)

expect_end-eq-ok :
    {A : Type 0} (r : Reader) (b a : A) (bs used left : Bytes)
    → bs ≡ used ++ left
    → r ≡ advance (length used) (new_reader bs)
    → bind (expect_end r) (λ _. ok b) ≡ ok a
    → (b ≡ a) × (used ≡ bs)
unfolding expect_end
expect_end-eq-ok r b a bs used left whole moved e = (
  ground arith,
  sym (
      whole
      ∙ rw (nil_of_length left (omega (arith, at_end, ap length whole, length-append used left)))
          (append-nil used)),
)
  where
    at_end : 0 + length used ≡ length bs
    at_end = ground (arith, moved)

-- A value that is the whole of its input.
pub Sound-read_all :
    {A : Type 0} {p : Reading A} {R : A → Bytes → Type 0} (bs : Bytes) (a : A)
    → Sound p R
    → IsBytes bs
    → read_all p bs ≡ ok a
    → R a bs
unfolding read_all expect_end
Sound-read_all {p = p} {R = R} bs a hp valid e =
    let ((b, r), first, second) = bind-eq-ok (p (new_reader bs)) _ e in
    let u = hp.run (new_reader bs) bs b r (At-new_reader bs) valid first in
    let (same, all) = expect_end-eq-ok r b a bs u.used u.left u.whole u.moved second in
    subst (R a) all (subst (λ x. R x u.used) same u.holds)
