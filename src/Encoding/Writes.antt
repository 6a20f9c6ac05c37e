-- ===== src/Encoding/Writes.antt =====
-- What a chain of `Writer` calls (core/encoding.py) appends, when none of them raises.
use tal_cash.Base.{
  ==_iff, Bytes, List, [], ap, append-nil, append_assoc, arith, err, length, le→leb, ok, refl,
  subst, sym, value_error, ℕ, ◌*◌, ◌++◌, ◌<◌, ◌^◌, ◌∙◌, ◌∷◌, ◌≡◌, ◌≤◌,
}
use tal_cash.Encoding.{
  Writer, Writing, append_part, get_value, join, new_writer, to_bytes, uint_bytes, write_fixed,
  write_u8, write_uint, write_var8, written, ◌⨾◌,
}
use tal_cash.Encoding.BigEndian.{to_bytes-one, uint_bytes_fits}

join-append : (ps qs : List Bytes) → join (ps ++ qs) ≡ join ps ++ join qs
join-append [] qs = refl
join-append (p ∷ ps) qs = rw (join-append ps qs) (sym (append_assoc p (join ps) (join qs)))

-- `m` appends `bs`, whatever was written before.
pub record Writes (m : Writing) (bs : Bytes) : Type 0 where
  pub after : Writer → Writer
  pub run : (w : Writer) → m w ≡ ok (after w)
  pub value : (w : Writer) → get_value (after w) ≡ get_value w ++ bs

pub Writes-⨾ :
    {m k : Writing} {bs cs : Bytes} → Writes m bs → Writes k cs → Writes (m ⨾ k) (bs ++ cs)
Writes-⨾ {m} {k} {bs} {cs} hm hk = record {
  after = λ w. hk.after (hm.after w);
  run = λ w. rw (hm.run w) (hk.run (hm.after w));
  value = λ w.
      hk.value (hm.after w) ∙ ap (λ x. x ++ cs) (hm.value w) ∙ append_assoc (get_value w) bs cs;
}

-- The last call of a chain.
pub Writes-last : {m : Writing} {bs : Bytes} → Writes m bs → Writes m (bs ++ [])
Writes-last {m} {bs} h = subst (Writes m) (sym (append-nil bs)) h

pub Writes-append_part : (part : Bytes) → Writes (append_part part) part
unfolding append_part get_value
Writes-append_part part = record {
  after = λ w. record { parts = w.parts ++ part ∷ [] };
  run = λ w. refl;
  value = λ w. join-append w.parts (part ∷ []) ∙ ap (λ x. join w.parts ++ x) (append-nil part);
}

pub Writes-write_uint : (n v : ℕ) → v < 256 ^ n → Writes (write_uint n v) (to_bytes n v)
unfolding write_uint
Writes-write_uint n v h =
    let part = Writes-append_part (to_bytes n v) in
    record {
      after = part.after;
      run = λ w. rw (uint_bytes_fits n v h) (part.run w);
      value = part.value;
    }

pub Writes-write_u8 : (v : ℕ) → v < 256 → Writes (write_u8 v) (v ∷ [])
Writes-write_u8 v h =
    subst (Writes (write_u8 v)) (to_bytes-one v h) (Writes-write_uint 1 v (omega (arith, h)))

pub Writes-write_fixed : (part : Bytes) (n : ℕ) → length part ≡ n → Writes (write_fixed part n) part
unfolding write_fixed
Writes-write_fixed part n h =
    let appended = Writes-append_part part in
    record {
      after = appended.after;
      run = λ w. rw ((==_iff (length part) n).1 h) (appended.run w);
      value = appended.value;
    }

pub Writes-write_var8 :
    (part : Bytes) → length part < 256 → Writes (write_var8 part) (length part ∷ part)
unfolding write_var8
Writes-write_var8 part h = Writes-⨾ (Writes-write_u8 (length part) h) (Writes-append_part part)

pub written-Writes : {m : Writing} {bs : Bytes} → Writes m bs → written m ≡ ok bs
unfolding written
written-Writes h = rw (h.run new_writer, h.value new_writer) refl

-- A value that does not fit raises.
pub write_uint_overflow :
    (n v : ℕ) (w : Writer) → 2 ^ (8 * n) ≤ v → write_uint n v w ≡ err value_error
unfolding write_uint uint_bytes
write_uint_overflow n v w h = rw (le→leb (2 ^ (8 * n)) v h) refl
