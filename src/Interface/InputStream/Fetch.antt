-- ===== src/Interface/InputStream/Fetch.antt =====
-- interface/raw/interface.h: what one loop of a transfer takes out of the buffer.
use arrp.Common.{
  ℕ, zero, suc, ◌+◌, ◌≤◌, ◌≡◌, ◌⊎◌, inl, inr, refl, sym, ap, ap₂, ◌∙◌, Bool-cases, ltb, ltb→lt,
  false, Option, List, get_elem?, arith,
}
use arrp.Common.Collect.{collect, collect_ext, push_front}
use arrp.Interface.InputStream.{fetch}

-- The items of the buffer from an index on.
abbrev pub from {ℓ} : {A : Type ℓ} → List A → ℕ → ℕ → Option A
from buffer index j = get_elem? buffer (index + j)

module _ {A : Type 0} (buffer : List A) (count : ℕ) where
  pub record Fetched (n index : ℕ) (r : List A × ℕ × ℕ) : Type 0 where
    pub number : ℕ
    pub given : r.0 ≡ collect number (from buffer index)
    pub missing : number + r.1 ≡ n
    pub stop : r.2 ≡ index + number
    pub bounded : r.2 ≤ count
    pub stopped : (r.1 ≡ 0) ⊎ (r.2 ≡ count)

  pub fetch-Fetched : (n index : ℕ) → index ≤ count → Fetched n index (fetch buffer count n index)
  unfolding fetch
  fetch-Fetched zero index h = record {
    number = 0;
    given = refl;
    missing = omega arith;
    stop = omega arith;
    bounded = h;
    stopped = inl refl;
  }
  fetch-Fetched (suc n) index h = elim (Bool-cases (ltb index count)) [
    | inl more ↦
        let f = fetch-Fetched n (index + 1) (omega (arith, ltb→lt index count more)) in
        rw more (record {
          number = suc f.number;
          given =
              ap₂ push_front (ap (get_elem? buffer) (sym (zeroth index)))
                (f.given ∙ collect_ext f.number _ _ (λ j _. ap (get_elem? buffer) (next index j)));
          missing = omega (arith, f.missing);
          stop = omega (arith, f.stop);
          bounded = f.bounded;
          stopped = f.stopped;
        })
    | inr full ↦ rw full (record {
      number = 0;
      given = refl;
      missing = omega arith;
      stop = omega arith;
      bounded = h;
      stopped = inr (at_end index full h);
    })
  ]
    where
      zeroth : (i : ℕ) → i + 0 ≡ i
      zeroth i = omega arith

      next : (i j : ℕ) → i + 1 + j ≡ i + suc j
      next i j = omega arith

      at_end : (i : ℕ) → ltb i count ≡ false → i ≤ count → i ≡ count
      at_end i e l = ground arith
