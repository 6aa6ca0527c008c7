-- ===== src/SenderRatchet/Spent.antt =====
-- A generation whose keys a `DecryptionRatchet` has given away or dropped.
use mls4rn.Prelude.{
  ℕ, zero, suc, ◌+◌, ◌<◌, ◌≡◌, ◌≢◌, Option, none, some, ◌∷◌, get_elem?, get_elem?-take-some,
  get_elem?-set_other, get_elem?-set_self, get_elem?-bound, set, take, arith,
}
use mls4rn.SenderRatchet.{RatchetSecret, RatchetKeyMaterial, Generation, DecryptionRatchet}

-- The ratchet is past the generation and does not hold its keys any more.
pub record Spent (g : Generation) (r : DecryptionRatchet) : Type 0 where
  pub behind : g < r.ratchet_head.generation
  pub gone :
      (i : ℕ) (keys : RatchetKeyMaterial)
      → g + suc i ≡ r.ratchet_head.generation
      → get_elem? r.past_secrets i ≢ some (some keys)

pub push-Spent :
    (g : Generation) (r : DecryptionRatchet) (head : RatchetSecret)
    (entry : Option RatchetKeyMaterial)
    → head.generation ≡ suc r.ratchet_head.generation
    → Spent g r
    → Spent g (record { past_secrets = entry ∷ r.past_secrets; ratchet_head = head })
push-Spent g r head entry next sp = record { behind = omega (arith, sp.behind, next); gone = gone }
  where
    gone :
        (i : ℕ) (keys : RatchetKeyMaterial)
        → g + suc i ≡ head.generation
        → get_elem? (entry ∷ r.past_secrets) i ≢ some (some keys)
    gone zero keys e m = absurd (omega (arith, e, next, sp.behind))
    gone (suc i) keys e m = sp.gone i keys (omega (arith, next, e)) m

pub take-Spent :
    (g n : ℕ) (r : DecryptionRatchet)
    → Spent g r
    → Spent g (record r { past_secrets = take n r.past_secrets })
take-Spent g n r sp = record {
  behind = sp.behind;
  gone = λ i keys e m. sp.gone i keys e (get_elem?-take-some n i r.past_secrets m);
}

pub clear-Spent :
    (g j : ℕ) (r : DecryptionRatchet)
    → Spent g r
    → Spent g (record r { past_secrets = set r.past_secrets j none })
clear-Spent g j r sp = record {
  behind = sp.behind;
  gone = λ i keys e m. sp.gone i keys e (get_elem?-set_other r.past_secrets j i none m (λ e. cc));
}

-- The generation whose entry is blanked is spent.
pub cleared-Spent :
    (g j : ℕ) (r : DecryptionRatchet)
    → g + suc j ≡ r.ratchet_head.generation
    → Spent g (record r { past_secrets = set r.past_secrets j none })
cleared-Spent g j r e = record { behind = omega (arith, e); gone = gone }
  where
    gone :
        (i : ℕ) (keys : RatchetKeyMaterial)
        → g + suc i ≡ r.ratchet_head.generation
        → get_elem? (set r.past_secrets j none) i ≢ some (some keys)
    gone i keys e' m =
        let same : j ≡ i = omega (arith, e, e') in
        let held = get_elem?-set_other r.past_secrets j i none m (λ e. cc) in
        let here =
          get_elem?-set_self r.past_secrets j none
            (rw same (get_elem?-bound r.past_secrets i held)) in
        cc

-- The generation that a step of the head has just used, with a blank in front.
pub pushed-Spent :
    (n : ℕ) (r : DecryptionRatchet) (head : RatchetSecret)
    → head.generation ≡ suc r.ratchet_head.generation
    → Spent r.ratchet_head.generation
        (record { past_secrets = take n (none ∷ r.past_secrets); ratchet_head = head })
pushed-Spent n r head next = record { behind = omega (arith, next); gone = gone }
  where
    gone :
        (i : ℕ) (keys : RatchetKeyMaterial)
        → r.ratchet_head.generation + suc i ≡ head.generation
        → get_elem? (take n (none ∷ r.past_secrets)) i ≢ some (some keys)
    gone zero keys e m = let front = get_elem?-take-some n 0 (none ∷ r.past_secrets) m in cc
    gone (suc i) keys e m = absurd (omega (arith, e, next))
