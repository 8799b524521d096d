-- ===== src/Bst/Hazard/Held.antt =====
-- src/bst-aravind-hp/bst-aravind.c: which stores of hazard pointers protect the record of a seek.
use qsense.Prelude.{ℕ, ◌+◌, ◌<◌, ◌≡◌, ◌≢◌, ◌∙◌, arith, Bool-cases, inl, inr}
use qsense.DoubleLlist.{Ptr}
use qsense.Bst.{is_tagged, address, SeekRecord, advance}
use qsense.Bst.Hazard.{World, Others, assign_hp, assign_record}

pub address_twice : (p : ℕ) → address (address p) ≡ address p
address_twice p = omega arith

module _ {S : Type 0} (set_hp : ℕ → Ptr → S → S) (retire : Ptr → S → S) (base : ℕ)
    (hp : S → ℕ → Ptr) where
  -- The others leave the six hazard pointers from `base` on alone.
  abbrev pub Respects : Others S → Type 0
  Respects other = (w : World S) (i : ℕ) → i < 6 → hp (other w).1 (base + i) ≡ hp w.1 (base + i)

  -- Hazard pointers of the thread hold the four nodes of a record.
  pub record IsProtected (r : SeekRecord) (s : S) : Type 0 where
    pub ancestor_held : hp s (base + 0) ≡ r.ancestor
    pub successor_held : hp s (base + 1) ≡ r.successor
    pub parent_held : hp s (base + 2) ≡ r.parent
    pub leaf_held : hp s (base + 3) ≡ r.leaf

  -- The nodes of a record are addresses.
  abbrev pub IsAligned : SeekRecord → Type 0
  IsAligned r =
      (address r.ancestor ≡ r.ancestor)
      × (address r.successor ≡ r.successor)
      × (address r.parent ≡ r.parent)
      × (address r.leaf ≡ r.leaf)

  module _ (same : (i : ℕ) (p : Ptr) (s : S) → hp (set_hp i p s) i ≡ p)
      (others_same : (i : ℕ) (p : Ptr) (s : S) (j : ℕ) → j ≢ i → hp (set_hp i p s) j ≡ hp s j) where
    keep :
        (i j : ℕ) (p : Ptr) (s : S)
        → j ≢ i
        → hp (assign_hp set_hp retire base p i s) (base + j) ≡ hp s (base + j)
    keep i j p s ne = others_same (base + i) p s (base + j) (λ e. ne (omega (arith, e)))

    -- The four stores of a record.
    pub stored :
        (a a1 b b1 c c1 d : Ptr) (s : S)
        → a1 ≡ a
        → b1 ≡ b
        → c1 ≡ c
        → (let put_hp = assign_hp set_hp retire base in
            IsProtected
              (record { ancestor = a; successor = b; parent = c; leaf = d })
              (put_hp d 3 (put_hp c1 2 (put_hp b1 1 (put_hp a1 0 s)))))
    stored a a1 b b1 c c1 d s ea eb ec =
        let put_hp = assign_hp set_hp retire base in
        let s0 = put_hp a1 0 s in
        let s1 = put_hp b1 1 s0 in
        let s2 = put_hp c1 2 s1 in
        record {
          ancestor_held =
              keep 3 0 d s2 (ground arith)
              ∙ (keep 2 0 c1 s1 (ground arith)
                  ∙ (keep 1 0 b1 s0 (ground arith) ∙ (same (base + 0) a1 s ∙ ea)));
          successor_held =
              keep 3 1 d s2 (ground arith)
              ∙ (keep 2 1 c1 s1 (ground arith) ∙ (same (base + 1) b1 s0 ∙ eb));
          parent_held = keep 3 2 d s2 (ground arith) ∙ (same (base + 2) c1 s1 ∙ ec);
          leaf_held = same (base + 3) d s2;
        }

    -- A step over a tagged edge keeps the ancestor and the successor.
    stored_tagged :
        (r : SeekRecord) (c1 d : Ptr) (s : S)
        → IsProtected r s
        → c1 ≡ r.leaf
        → (let put_hp = assign_hp set_hp retire base in
            IsProtected (record r { parent = r.leaf; leaf = d }) (put_hp d 3 (put_hp c1 2 s)))
    stored_tagged r c1 d s h ec =
        let s2 = assign_hp set_hp retire base c1 2 s in
        record {
          ancestor_held =
              keep 3 0 d s2 (ground arith) ∙ (keep 2 0 c1 s (ground arith) ∙ h.ancestor_held);
          successor_held =
              keep 3 1 d s2 (ground arith) ∙ (keep 2 1 c1 s (ground arith) ∙ h.successor_held);
          parent_held = keep 3 2 d s2 (ground arith) ∙ (same (base + 2) c1 s ∙ ec);
          leaf_held = same (base + 3) d s2;
        }

    -- The stores of the loop protect the record that it moves to.
    pub assigned :
        (r : SeekRecord) (pf : ℕ) (current : Ptr) (s : S)
        → IsProtected r s
        → IsAligned r
        → IsProtected (advance r pf current) (assign_record set_hp retire base r pf current s)
    assigned r pf current s h (a_ok, b_ok, c_ok, d_ok) = elim (Bool-cases (is_tagged pf)) [
      | inl tagged ↦ rw tagged (stored_tagged r (address r.leaf) current s h d_ok)
      | inr clean ↦ rw clean (
          stored r.parent (address r.parent) r.leaf (address r.leaf) r.leaf (address r.leaf) current
            s c_ok d_ok d_ok)
    ]

    pub advance-IsAligned :
        (r : SeekRecord) (pf p : ℕ) → IsAligned r → IsAligned (advance r pf (address p))
    advance-IsAligned r pf p (a_ok, b_ok, c_ok, d_ok) = elim (Bool-cases (is_tagged pf)) [
      | inl tagged ↦ rw tagged (a_ok, b_ok, d_ok, address_twice p)
      | inr clean ↦ rw clean (c_ok, d_ok, d_ok, address_twice p)
    ]

    -- Stores of the other two hazard pointers, and what the others do, keep a record protected.
    pub kept :
        (r : SeekRecord) (i : ℕ) (p : Ptr) (s : S)
        → 3 < i
        → IsProtected r s
        → IsProtected r (assign_hp set_hp retire base p i s)
    kept r i p s lt h = record {
      ancestor_held = keep i 0 p s (λ e. absurd (omega (arith, lt, e))) ∙ h.ancestor_held;
      successor_held = keep i 1 p s (λ e. absurd (omega (arith, lt, e))) ∙ h.successor_held;
      parent_held = keep i 2 p s (λ e. absurd (omega (arith, lt, e))) ∙ h.parent_held;
      leaf_held = keep i 3 p s (λ e. absurd (omega (arith, lt, e))) ∙ h.leaf_held;
    }

    pub respected :
        (r : SeekRecord) (other : Others S) (w : World S)
        → Respects other
        → IsProtected r w.1
        → IsProtected r (other w).1
    respected r other w own h = record {
      ancestor_held = own w 0 (ground arith) ∙ h.ancestor_held;
      successor_held = own w 1 (ground arith) ∙ h.successor_held;
      parent_held = own w 2 (ground arith) ∙ h.parent_held;
      leaf_held = own w 3 (ground arith) ∙ h.leaf_held;
    }
