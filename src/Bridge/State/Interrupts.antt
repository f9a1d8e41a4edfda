-- ===== src/Bridge/State/Interrupts.antt =====
-- The duplicate check of interrupts over a sequence of them.
use mathlib.Core.Path.{subst}
use maivn.Prelude.{
  ◌≡◌, refl, sym, String, true, false, Option, List, [], ◌∷◌, arith, All, Bool-cases, inl, inr,
  if◌then◌else◌, eq_refl,
}
use maivn.Bridge.Dedup.{TextOps, build_interrupt_fingerprint, same_fingerprint}
use maivn.Bridge.State.{Bridge, seen_fingerprint, should_drop_interrupt}

pub record Interrupt : Type 0 where
  pub prompt : String
  pub data_key : String
  pub arg_name : Option String

module _ (ops : TextOps) where
  abbrev pub fingerprint_of : Interrupt → String × String
  fingerprint_of i = build_interrupt_fingerprint ops i.prompt i.data_key i.arg_name

  -- None of the interrupts repeats one that was seen, or one before it.
  abbrev pub Fresh : List (String × String) → List Interrupt → Type 0
  Fresh seen [] = Unit
  Fresh seen (i ∷ interrupts) =
      (seen_fingerprint (fingerprint_of i) seen ≡ false)
      × Fresh (fingerprint_of i ∷ seen) interrupts

same_fingerprint_self : (f : String × String) → same_fingerprint f f ≡ true
same_fingerprint_self (a, b) = ground (arith, eq_refl a, eq_refl b)

seen_fingerprint-cons :
    (f g : String × String) (fs : List (String × String))
    → seen_fingerprint f fs ≡ true
    → seen_fingerprint f (g ∷ fs) ≡ true
unfolding seen_fingerprint
seen_fingerprint-cons f g fs h = ground arith

seen_fingerprint_self :
    (f : String × String) (fs : List (String × String)) → seen_fingerprint f (f ∷ fs) ≡ true
unfolding seen_fingerprint
seen_fingerprint_self f fs = ground (arith, same_fingerprint_self f)

module _ {ℓ} {D : Type ℓ} (ops : TextOps) where
  -- The interrupts that pass the check, each asked in turn, and the bridge afterwards.
  unfoldable pub shown : Bridge D → List Interrupt → List Interrupt × Bridge D
  shown b [] = ([], b)
  shown b (i ∷ interrupts) =
      let (drop, b') = should_drop_interrupt ops b i.prompt i.data_key i.arg_name in
      let (rest, last) = shown b' interrupts in (if drop then rest else i ∷ rest, last)

  remember : Bridge D → Interrupt → Bridge D
  remember b i = record b {
    interrupt_fingerprints = fingerprint_of ops i ∷ b.interrupt_fingerprints;
  }

  shown-repeated :
      (b : Bridge D) (i : Interrupt) (interrupts : List Interrupt)
      → b.dedupe_interrupts ≡ true
      → seen_fingerprint (fingerprint_of ops i) b.interrupt_fingerprints ≡ true
      → shown b (i ∷ interrupts) ≡ shown b interrupts
  unfolding shown should_drop_interrupt
  shown-repeated b i interrupts on s = rw (on, s) refl

  shown-new :
      (b : Bridge D) (i : Interrupt) (interrupts : List Interrupt)
      → b.dedupe_interrupts ≡ true
      → seen_fingerprint (fingerprint_of ops i) b.interrupt_fingerprints ≡ false
      → shown b (i ∷ interrupts)
        ≡ (i ∷ (shown (remember b i) interrupts).0, (shown (remember b i) interrupts).1)
  unfolding shown should_drop_interrupt remember
  shown-new b i interrupts on s = rw (on, s) refl

  -- A fingerprint that was seen stays seen.
  seen-shown :
      (b : Bridge D) (f : String × String) (interrupts : List Interrupt)
      → b.dedupe_interrupts ≡ true
      → seen_fingerprint f b.interrupt_fingerprints ≡ true
      → seen_fingerprint f (shown b interrupts).1.interrupt_fingerprints ≡ true
  unfolding remember
  seen-shown b f [] on s = unfold shown in s
  seen-shown b f (i ∷ interrupts) on s =
      elim (Bool-cases (seen_fingerprint (fingerprint_of ops i) b.interrupt_fingerprints)) [
        | inl e ↦ rw (shown-repeated b i interrupts on e) (seen-shown b f interrupts on s)
        | inr e ↦ rw (shown-new b i interrupts on e) (
            seen-shown (remember b i) f interrupts on
              (seen_fingerprint-cons f (fingerprint_of ops i) b.interrupt_fingerprints s))
      ]

  -- With the check on, whatever was seen before: the interrupts that pass have fingerprints that
  -- were not seen and that differ from each other, and the fingerprint of every interrupt asked
  -- about, passed or dropped, has been seen afterwards.
  pub shown-Fresh :
      (b : Bridge D) (interrupts : List Interrupt)
      → b.dedupe_interrupts ≡ true
      → Fresh ops b.interrupt_fingerprints (shown b interrupts).0
        × All
            (λ i.
              seen_fingerprint (fingerprint_of ops i) (shown b interrupts).1.interrupt_fingerprints
              ≡ true)
            interrupts
  unfolding remember
  shown-Fresh b [] on = unfold shown in (tt, tt)
  shown-Fresh b (i ∷ interrupts) on =
      let P = λ (o : List Interrupt × Bridge D).
        (Fresh ops b.interrupt_fingerprints o.0
          × All (λ i. seen_fingerprint (fingerprint_of ops i) o.1.interrupt_fingerprints ≡ true)
              (i ∷ interrupts)) in
      elim (Bool-cases (seen_fingerprint (fingerprint_of ops i) b.interrupt_fingerprints)) [
        | inl e ↦
            let k = shown-Fresh b interrupts on in
            subst P (sym (shown-repeated b i interrupts on e))
              (k.0, (seen-shown b (fingerprint_of ops i) interrupts on e, k.1))
        | inr e ↦
            let k = shown-Fresh (remember b i) interrupts on in
            let now = seen_fingerprint_self (fingerprint_of ops i) b.interrupt_fingerprints in
            subst P (sym (shown-new b i interrupts on e))
              ((e, k.0), (seen-shown (remember b i) (fingerprint_of ops i) interrupts on now, k.1))
      ]
