-- ===== src/SenderRatchet/Held.antt =====
-- A generation whose keys the window holds, as long as it is within the tolerance.
use mls4rn.Prelude.{
  ℕ, zero, suc, ◌+◌, ◌<◌, ◌≡◌, ◌≢◌, refl, ◌∙◌, Option, none, some, ◌∷◌, get_elem?, get_elem?-take,
  get_elem?-set_ne, set, take, arith,
}
use mls4rn.SenderRatchet.{RatchetSecret, RatchetKeyMaterial, Generation, DecryptionRatchet}

-- The ratchet is past the generation and, while it is among the last `tolerance`, holds its keys.
pub record Held (tolerance : ℕ) (g : Generation) (r : DecryptionRatchet) : Type 0 where
  pub behind : g < r.ratchet_head.generation
  pub entry :
      (i : ℕ)
      → g + suc i ≡ r.ratchet_head.generation
      → i < tolerance
      → (keys : RatchetKeyMaterial) × (get_elem? r.past_secrets i ≡ some (some keys))

pub push-Held :
    (tolerance g : ℕ) (r : DecryptionRatchet) (head : RatchetSecret)
    (entry : Option RatchetKeyMaterial)
    → head.generation ≡ suc r.ratchet_head.generation
    → Held tolerance g r
    → Held tolerance g (record { past_secrets = entry ∷ r.past_secrets; ratchet_head = head })
push-Held tolerance g r head entry next he = record {
  behind = omega (arith, he.behind, next);
  entry = held;
}
  where
    held :
        (i : ℕ)
        → g + suc i ≡ head.generation
        → i < tolerance
        → (keys : RatchetKeyMaterial) × (get_elem? (entry ∷ r.past_secrets) i ≡ some (some keys))
    held zero e lt = absurd (omega (arith, e, next, he.behind))
    held (suc i) e lt = he.entry i (omega (arith, next, e)) (omega (arith, lt))

pub skipped-Held :
    (tolerance : ℕ) (r : DecryptionRatchet) (head : RatchetSecret) (keys : RatchetKeyMaterial)
    → head.generation ≡ suc r.ratchet_head.generation
    → Held tolerance r.ratchet_head.generation
        (record { past_secrets = some keys ∷ r.past_secrets; ratchet_head = head })
skipped-Held tolerance r head keys next = record { behind = omega (arith, next); entry = held }
  where
    held :
        (i : ℕ)
        → r.ratchet_head.generation + suc i ≡ head.generation
        → i < tolerance
        → (k : RatchetKeyMaterial) × (get_elem? (some keys ∷ r.past_secrets) i ≡ some (some k))
    held zero e lt = (keys, refl)
    held (suc i) e lt = absurd (omega (arith, e, next))

pub take-Held :
    (tolerance g : ℕ) (r : DecryptionRatchet)
    → Held tolerance g r
    → Held tolerance g (record r { past_secrets = take tolerance r.past_secrets })
take-Held tolerance g r he = record {
  behind = he.behind;
  entry = λ i e lt.
      let (keys, m) = he.entry i e lt in (keys, get_elem?-take r.past_secrets tolerance i lt ∙ m);
}

pub clear-Held :
    (tolerance g g' j : ℕ) (r : DecryptionRatchet)
    → g' + suc j ≡ r.ratchet_head.generation
    → g ≢ g'
    → Held tolerance g r
    → Held tolerance g (record r { past_secrets = set r.past_secrets j none })
clear-Held tolerance g g' j r e' ne he = record {
  behind = he.behind;
  entry = λ i e lt.
      let (keys, m) = he.entry i e lt in
      (
        keys,
        get_elem?-set_ne r.past_secrets j i none (λ same. ne (omega (arith, same, e, e'))) ∙ m,
      );
}
