-- ===== src/Encoding/Reads.antt =====
-- What `Reader` calls (core/encoding.py) return on bytes that a `Writer` wrote: the value, with the
-- reader moved past exactly those bytes.
use tal_cash.Base.{
  ==_iff, Bytes, [], ap, append-nil, append_assoc, arith, drop, drop-length-append, length,
  length-append, le→ltb, ok, refl, subst, sym, take-length-append, ℕ, ◌++◌, ◌+◌, ◌<◌, ◌^◌, ◌∙◌, ◌∷◌,
  ◌≡◌,
}
use tal_cash.Encoding.{
  Reader, Reading, expect_end, first_byte, from_bytes, new_reader, pure, read_all, read_u8,
  read_uint, read_var8, take_bytes, to_bytes, ◌>>=◌,
}
use tal_cash.Encoding.BigEndian.{from_bytes-to_bytes, length-to_bytes}

-- `bs` is what lies ahead of the reader.
pub record At (r : Reader) (bs : Bytes) : Type 0 where
  pub passed : Bytes
  pub split : r.octets ≡ passed ++ bs
  pub place : r.pos ≡ length passed

abbrev pub advance : ℕ → Reader → Reader
advance n r = record r { pos = r.pos + n }

pub At-new_reader : (bs : Bytes) → At (new_reader bs) bs
At-new_reader bs = record { passed = []; split = refl; place = refl }

pub At-advance :
    (r : Reader) (cs rest : Bytes) → At r (cs ++ rest) → At (advance (length cs) r) rest
At-advance r cs rest h = record {
  passed = h.passed ++ cs;
  split = h.split ∙ sym (append_assoc h.passed cs rest);
  place = omega (arith, h.place, length-append h.passed cs);
}

pub drop-At : (r : Reader) (bs : Bytes) → At r bs → drop r.pos r.octets ≡ bs
drop-At r bs h = rw (h.split, h.place) (drop-length-append h.passed bs)

pub length-At : (r : Reader) (bs : Bytes) → At r bs → length r.octets ≡ r.pos + length bs
length-At r bs h = rw h.split (omega (arith, length-append h.passed bs, h.place))

-- `p` reads `a` off the front of `bs`, wherever `bs` stands.
pub record Reads {A : Type 0} (p : Reading A) (bs : Bytes) (a : A) : Type 0 where
  pub run : (r : Reader) (rest : Bytes) → At r (bs ++ rest) → p r ≡ ok (a, advance (length bs) r)

pub Reads-take_bytes : (bs : Bytes) (n : ℕ) → length bs ≡ n → Reads (take_bytes n) bs bs
unfolding take_bytes
Reads-take_bytes bs n h = record {
  run = λ r rest at. rw (
    le→ltb (length r.octets) (r.pos + n)
        (omega (arith, length-At r (bs ++ rest) at, length-append bs rest, h)),
    drop-At r (bs ++ rest) at,
    ← h,
    take-length-append bs rest,
  );
}

pub Reads-bind :
    {A B : Type 0} {p : Reading A} (f : A → Reading B) {bs cs : Bytes} {a : A} {b : B}
    → Reads p bs a
    → Reads (f a) cs b
    → Reads (p >>= f) (bs ++ cs) b
unfolding ◌>>=◌
Reads-bind f {bs} {cs} {a} {b} hp hf = record {
  run = λ r rest at.
      let at' : At r (bs ++ (cs ++ rest)) = subst (At r) (append_assoc bs cs rest) at in
      rw (hp.run r (cs ++ rest) at') (
        hf.run (advance (length bs) r) rest (At-advance r bs (cs ++ rest) at')
        ∙ ap (λ k. ok (b, record r { pos = k })) {x = r.pos + length bs + length cs}
            {y = r.pos + length (bs ++ cs)} (omega (arith, length-append bs cs)));
}

pub Reads-pure : {A : Type 0} (a : A) → Reads (pure a) [] a
Reads-pure a = record {
  run =
      λ r rest at. ap (λ k. ok (a, record r { pos = k })) {x = r.pos} {y = r.pos + 0} (omega arith);
}

pub Reads-map :
    {A B : Type 0} {p : Reading A} (f : A → B) {bs : Bytes} {a : A}
    → Reads p bs a
    → Reads (p >>= λ x. pure (f x)) bs (f a)
unfolding ◌>>=◌
Reads-map f hp = record { run = λ r rest at. rw (hp.run r rest at) refl }

pub Reads-read_uint : (n v : ℕ) → v < 256 ^ n → Reads (read_uint n) (to_bytes n v) v
unfolding read_uint
Reads-read_uint n v h =
    subst (Reads _ _) (from_bytes-to_bytes n v h)
      (Reads-map from_bytes (Reads-take_bytes (to_bytes n v) n (length-to_bytes n v)))

pub Reads-read_u8 : (v : ℕ) → v < 256 → Reads read_u8 (v ∷ []) v
unfolding read_u8
Reads-read_u8 v h = Reads-map first_byte (Reads-take_bytes (v ∷ []) 1 refl)

pub Reads-read_var8 : (bs : Bytes) → length bs < 256 → Reads read_var8 (length bs ∷ bs) bs
unfolding read_var8
Reads-read_var8 bs h =
    Reads-bind _ (Reads-read_u8 (length bs) h) (Reads-take_bytes bs (length bs) refl)

-- The whole of the input.
pub Reads-read_all :
    {A : Type 0} {p : Reading A} {bs : Bytes} {a : A} → Reads p bs a → read_all p bs ≡ ok a
unfolding read_all expect_end
Reads-read_all {bs = bs} h = rw (
  h.run (new_reader bs) [] (subst (At (new_reader bs)) (sym (append-nil bs)) (At-new_reader bs)),
  (==_iff (0 + length bs) (length bs)).1 (omega arith),
)
