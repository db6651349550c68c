-- ===== src/Codec/Reader/Reads.antt =====
-- A compositional account of decoding: a read gives a value for certain bytes, wherever these stand
-- and whatever follows them. Codecs of records and sequences are put together from those of their parts.
use mathlib.Core.List.{append_assoc, append-nil}
use esbt_web.Base.{
  ℕ, ◌+◌, ◌^◌, ◌<◌, ◌≤◌, ◌≡◌, ap, sym, subst, ◌∙◌, Bool, false, List, [], ◌++◌, length,
  length-append, u64_limit, arith,
}
use esbt_web.Error.{ErrorCode, ok}
use esbt_web.Codec.Reader.{Read, ◌>>=◌, ◌>>◌, pure, reject, to_le, read_le}
use esbt_web.Codec.Reader.Laws.{at, bind-ok, length-to_le, read_le-to_le}

-- The margin keeps every offset that a part computes below the limit of `usize`.
abbrev pub Fits : ℕ → List ℕ → Type 0
Fits o bytes = o + length bytes + 16 < u64_limit

pub record Reads {A : Type 0} (m : Read A) (bytes : List ℕ) (a : A) : Type 0 where
  pub reads :
      (o : ℕ) (rest : List ℕ)
      → Fits o bytes
      → m (at o (bytes ++ rest)) ≡ ok (a, at (o + length bytes) rest)

module _ {A : Type 0} where
  pub Reads-pure : (a : A) → Reads (pure a) [] a
  unfolding pure
  Reads-pure a = record { reads = λ o rest h. ap (λ (n : ℕ). ok (a, at n rest)) (omega arith) }

  pub Reads-pure_eq : (a b : A) → a ≡ b → Reads (pure a) [] b
  Reads-pure_eq a b e = subst (λ c. Reads (pure a) [] c) e (Reads-pure a)

  -- A last part that writes nothing.
  pub Reads-last : {m : Read A} (xs : List ℕ) {a : A} → Reads m (xs ++ []) a → Reads m xs a
  Reads-last {m} xs {a} h = subst (λ l. Reads m l a) (append-nil xs) h

module _ {B : Type 0} where
  -- A look at what is ahead, which takes nothing.
  pub Reads-peek :
      (m : Read (Unit {0})) (k : Read B) {ys : List ℕ} {b : B}
      → ((o : ℕ) (rest : List ℕ) → m (at o (ys ++ rest)) ≡ ok (tt, at o (ys ++ rest)))
      → Reads k ys b
      → Reads (m >> k) ys b
  unfolding ◌>>◌
  Reads-peek m k {ys} hm hk = record {
    reads = λ o rest h.
        bind-ok m (λ _. k) (at o (ys ++ rest)) tt (at o (ys ++ rest)) (hm o rest)
        ∙ hk.reads o rest h;
  }

  -- A test that does not fire.
  pub Reads-reject :
      {test : Bool} (e : ErrorCode) (k : Read B) {ys : List ℕ} {b : B}
      → test ≡ false
      → Reads k ys b
      → Reads (reject test e >> k) ys b
  unfolding ◌>>◌ reject
  Reads-reject e k off hk = record { reads = λ o rest h. rw off (hk.reads o rest h) }

module _ {A B : Type 0} where
  pub Reads-bind :
      (m : Read A) (f : A → Read B) (xs ys : List ℕ) {a : A} {b : B}
      → Reads m xs a
      → Reads (f a) ys b
      → Reads (m >>= f) (xs ++ ys) b
  Reads-bind m f xs ys {a} {b} hm hf = record {
    reads = λ o rest h.
        let len = length-append xs ys in
        subst (λ l. (m >>= f) (at o l) ≡ ok (b, at (o + length (xs ++ ys)) rest))
          (sym (append_assoc xs ys rest))
          (bind-ok m f (at o (xs ++ (ys ++ rest))) a (at (o + length xs) (ys ++ rest))
              (hm.reads o (ys ++ rest) (omega (arith, len)))
            ∙ hf.reads (o + length xs) rest (omega (arith, len))
            ∙ ap (λ (n : ℕ). ok (b, at n rest)) (omega (arith, len)));
  }

pub Reads-read_le : (k v : ℕ) → k ≤ 16 → v < 256 ^ k → Reads (read_le k) (to_le k v) v
Reads-read_le k v small h =
    let len = length-to_le k v in
    record {
      reads = λ o rest fits.
          read_le-to_le k v rest o h (omega (arith, len))
          ∙ ap (λ (n : ℕ). ok (v, at (o + n) rest)) (sym len);
    }
