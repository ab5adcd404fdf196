-- ===== src/Cycle/Share/Order.antt =====
-- negotiator/cycle/spin.go: the order of the submitters.
use golang_collector.Base.{
  ◌≤◌, ◌≡◌, ◌⊎◌, inl, inr, refl, sym, ◌∙◌, Bool, true, false, not, List, [], ◌∷◌, keep, length,
  if◌then◌else◌, Bool-cases, arith, ltb,
}
use golang_collector.Base.Int.{ℤ, ltb_int, eq_int}
use golang_collector.Base.Text.{Text}
use golang_collector.Matchmaker.Floats.{Floats, IsOrdered}
use golang_collector.Store.SeqVersion.Order.{
  eq_int_sound, eq_int_refl, ltb_int_irrefl, ltb_int_trans, ltb_int_total,
}
use golang_collector.Cycle.Share.{SubState, Sort, precedes, sort_submitters, mod_1009}

-- A test of equality and one of order that are those of a total order.
record IsTotal {K : Type 0} (eq lt : K → K → Bool) : Type 0 where
  sound : (a b : K) → eq a b ≡ true → a ≡ b
  same : (a : K) → eq a a ≡ true
  irrefl : (a : K) → lt a a ≡ false
  trans : (a b c : K) → lt a b ≡ true → lt b c ≡ true → lt a c ≡ true
  total : (a b : K) → eq a b ≡ false → (lt a b ≡ true) ⊎ (lt b a ≡ true)

ints-IsTotal : IsTotal eq_int ltb_int
ints-IsTotal = record {
  sound = eq_int_sound;
  same = eq_int_refl;
  irrefl = ltb_int_irrefl;
  trans = ltb_int_trans;
  total = ltb_int_total;
}

eq_int_sym : (a b : ℤ) → eq_int a b ≡ eq_int b a
eq_int_sym a b = ground arith

down-IsTotal : IsTotal eq_int (λ a b. ltb_int b a)
down-IsTotal = record {
  sound = eq_int_sound;
  same = eq_int_refl;
  irrefl = ltb_int_irrefl;
  trans = λ a b c h k. ltb_int_trans c b a k h;
  total = λ a b h. ltb_int_total b a (ground (arith, h, eq_int_sym a b));
}

-- A comparison as a sort requires it: asymmetric, and what comes before an item also comes before any
-- other, or that one before the item.
pub record IsWeakOrder {A : Type 0} (less : A → A → Bool) : Type 0 where
  pub asym : (a b : A) → less a b ≡ true → less b a ≡ false
  pub cotrans : (a b c : A) → less a c ≡ true → (less a b ≡ true) ⊎ (less b c ≡ true)

module _ {K : Type 0} {eq lt : K → K → Bool} (t : IsTotal eq lt) where
  differ : (x y : K) → lt x y ≡ true → (eq x y ≡ false) × (eq y x ≡ false)
  differ x y h = (
    elim (Bool-cases (eq x y)) [
      | inr e ↦ e
      | inl e ↦ absurd (ground (arith, h, t.sound x y e, t.irrefl x))
    ],
    elim (Bool-cases (eq y x)) [
      | inr e ↦ e
      | inl e ↦ absurd (ground (arith, h, t.sound y x e, t.irrefl x))
    ],
  )

  -- One key of a comparison, where `p`, `q` and `r` are what the rest of the keys decides.
  key-asym :
      (x y : K) (p q : Bool)
      → (p ≡ true → q ≡ false)
      → (if not (eq x y) then lt x y else p) ≡ true
      → (if not (eq y x) then lt y x else q) ≡ false
  key-asym x y p q rest h = elim (Bool-cases (eq x y)) [
    | inl e ↦ ground (arith, rest, h, e, t.sound x y e, t.same x)
    | inr e ↦
        let less : lt x y ≡ true = ground (arith, h, e) in
        ground (arith, differ x y less, t.trans x y x less, t.irrefl x)
  ]

  key-cotrans :
      (x y z : K) (p q r : Bool)
      → (p ≡ true → (q ≡ true) ⊎ (r ≡ true))
      → (if not (eq x z) then lt x z else p) ≡ true
      → ((if not (eq x y) then lt x y else q) ≡ true)
        ⊎ ((if not (eq y z) then lt y z else r) ≡ true)
  key-cotrans x y z p q r rest h = elim (Bool-cases (eq x y)) [
    | inl e ↦ ground (arith, rest, h, e, t.sound x y e)
    | inr e ↦ elim (t.total x y e) [
      | inl l ↦ inl (ground (arith, e, l))
      | inr l ↦ elim (Bool-cases (eq x z)) [
        | inl g ↦ inr (ground (arith, l, t.sound x z g, differ y x l))
        | inr g ↦
            let less : lt y z ≡ true = t.trans y x z l (ground (arith, h, g)) in
            inr (ground (arith, less, differ y z less))
      ]
    ]
  ]

  key-before :
      (x y : K) (q : Bool)
      → (if not (eq y x) then lt y x else q) ≡ false
      → (lt x y ≡ true) ⊎ ((x ≡ y) × (q ≡ false))
  key-before x y q h = elim (Bool-cases (eq y x)) [
    | inl e ↦ inr (sym (t.sound y x e), ground (arith, h, e))
    | inr e ↦ elim (t.total y x e) [ inl l ↦ absurd (ground (arith, h, e, l)) | inr l ↦ inl l ]
  ]

module _ (f : Floats) (ordered : IsOrdered f) where
  floats-IsTotal : IsTotal f.eq f.lt
  floats-IsTotal = record {
    sound = ordered.eq_sound;
    same = ordered.eq_refl;
    irrefl = ordered.lt_irrefl;
    trans = ordered.lt_trans;
    total = ordered.lt_total;
  }

  module _ {X : Type 0} where
    -- `a` may stand before `b`: by its time, at last by its place among the submitter ads.
    abbrev pub ByTime : SubState f X → SubState f X → Type 0
    ByTime a b =
        (ltb_int (mod_1009 a.last_heard) (mod_1009 b.last_heard) ≡ true)
        ⊎ ((mod_1009 a.last_heard ≡ mod_1009 b.last_heard) × (a.orig_idx ≤ b.orig_idx))

    -- By its starvation, the lower first.
    abbrev pub ByStarvation : SubState f X → SubState f X → Type 0
    ByStarvation a b =
        (f.lt a.starvation b.starvation ≡ true) ⊎ ((a.starvation ≡ b.starvation) × ByTime a b)

    -- By its job priority, the higher first, where that counts.
    abbrev pub ByJob : Bool → SubState f X → SubState f X → Type 0
    ByJob false a b = ByStarvation a b
    ByJob true a b =
        (ltb_int b.job_prio a.job_prio ≡ true) ⊎ ((a.job_prio ≡ b.job_prio) × ByStarvation a b)

    -- By its priority, the lower value first.
    abbrev pub ByPrio : Bool → (Text → f.R) → SubState f X → SubState f X → Type 0
    ByPrio want prio a b =
        (f.lt (prio a.name) (prio b.name) ≡ true) ⊎ ((prio a.name ≡ prio b.name) × ByJob want a b)

    -- Each one and the next are in this relation.
    abbrev pub InOrder : (SubState f X → SubState f X → Type 0) → List (SubState f X) → Type 0
    InOrder R [] = Unit
    InOrder R (a ∷ []) = Unit
    InOrder R (a ∷ b ∷ rest) = R a b × InOrder R (b ∷ rest)

    -- What sort.SliceStable documents of a comparison that is an order: no item comes before the one in
    -- front of it, and the items are those of the list.
    pub record IsSort (sort : Sort f X) : Type 0 where
      pub sorts :
          (less : SubState f X → SubState f X → Bool) (subs : List (SubState f X))
          → IsWeakOrder less
          → InOrder (λ a b. less b a ≡ false) (sort less subs)
      pub keeps :
          (less : SubState f X → SubState f X → Bool) (subs : List (SubState f X))
          (p : SubState f X → Bool)
          → length (keep p (sort less subs)) ≡ length (keep p subs)

    time_less : SubState f X → SubState f X → Bool
    time_less a b =
        if not (eq_int (mod_1009 a.last_heard) (mod_1009 b.last_heard))
        then ltb_int (mod_1009 a.last_heard) (mod_1009 b.last_heard)
        else ltb a.orig_idx b.orig_idx

    starvation_less : SubState f X → SubState f X → Bool
    unfolding time_less
    starvation_less a b =
        if not (f.eq a.starvation b.starvation)
        then f.lt a.starvation b.starvation
        else time_less a b

    job_less : Bool → SubState f X → SubState f X → Bool
    unfolding starvation_less
    job_less false a b = starvation_less a b
    job_less true a b =
        if not (eq_int a.job_prio b.job_prio)
        then ltb_int b.job_prio a.job_prio
        else starvation_less a b

    precedes-keys :
        (want : Bool) (prio : Text → f.R) (a b : SubState f X)
        → precedes f want prio a b ≡ (
            if not (f.eq (prio a.name) (prio b.name))
            then f.lt (prio a.name) (prio b.name)
            else job_less want a b)
    unfolding precedes job_less
    precedes-keys true prio a b = refl
    precedes-keys false prio a b = refl

    time_less-IsWeakOrder : IsWeakOrder time_less
    unfolding time_less
    time_less-IsWeakOrder = record {
      asym = λ a b.
          key-asym ints-IsTotal (mod_1009 a.last_heard) (mod_1009 b.last_heard)
            (ltb a.orig_idx b.orig_idx) (ltb b.orig_idx a.orig_idx) (λ h. ground (arith, h));
      cotrans = λ a b c.
          key-cotrans ints-IsTotal (mod_1009 a.last_heard) (mod_1009 b.last_heard)
            (mod_1009 c.last_heard) (ltb a.orig_idx c.orig_idx) (ltb a.orig_idx b.orig_idx)
            (ltb b.orig_idx c.orig_idx) (λ h. ground (arith, h));
    }

    starvation_less-IsWeakOrder : IsWeakOrder starvation_less
    unfolding starvation_less
    starvation_less-IsWeakOrder = record {
      asym = λ a b.
          key-asym floats-IsTotal a.starvation b.starvation (time_less a b) (time_less b a)
            (time_less-IsWeakOrder.asym a b);
      cotrans = λ a b c.
          key-cotrans floats-IsTotal a.starvation b.starvation c.starvation (time_less a c)
            (time_less a b) (time_less b c) (time_less-IsWeakOrder.cotrans a b c);
    }

    job_less-IsWeakOrder : (want : Bool) → IsWeakOrder (job_less want)
    unfolding job_less
    job_less-IsWeakOrder false = record {
      asym = starvation_less-IsWeakOrder.asym;
      cotrans = starvation_less-IsWeakOrder.cotrans;
    }
    job_less-IsWeakOrder true = record {
      asym = λ a b.
          key-asym down-IsTotal a.job_prio b.job_prio (starvation_less a b) (starvation_less b a)
            (starvation_less-IsWeakOrder.asym a b);
      cotrans = λ a b c.
          key-cotrans down-IsTotal a.job_prio b.job_prio c.job_prio (starvation_less a c)
            (starvation_less a b) (starvation_less b c) (starvation_less-IsWeakOrder.cotrans a b c);
    }

    precedes-IsWeakOrder :
        (want : Bool) (prio : Text → f.R) → IsWeakOrder (precedes f {X = X} want prio)
    precedes-IsWeakOrder want prio = record {
      asym = λ a b.
          rw (precedes-keys want prio a b, precedes-keys want prio b a)
            (key-asym floats-IsTotal (prio a.name) (prio b.name) (job_less want a b)
              (job_less want b a) ((job_less-IsWeakOrder want).asym a b));
      cotrans = λ a b c.
          rw (precedes-keys want prio a b, precedes-keys want prio b c, precedes-keys want prio a c)
            (key-cotrans floats-IsTotal (prio a.name) (prio b.name) (prio c.name)
              (job_less want a c) (job_less want a b) (job_less want b c)
              ((job_less-IsWeakOrder want).cotrans a b c));
    }

    time_less-ByTime : (a b : SubState f X) → time_less b a ≡ false → ByTime a b
    unfolding time_less
    time_less-ByTime a b h =
        elim (key-before ints-IsTotal (mod_1009 a.last_heard) (mod_1009 b.last_heard)
          (ltb b.orig_idx a.orig_idx) h) [ inl l ↦ inl l | inr (e, q) ↦ inr (e, ground (arith, q)) ]

    starvation_less-ByStarvation :
        (a b : SubState f X) → starvation_less b a ≡ false → ByStarvation a b
    unfolding starvation_less
    starvation_less-ByStarvation a b h =
        elim (key-before floats-IsTotal a.starvation b.starvation (time_less b a) h) [
          | inl l ↦ inl l
          | inr (e, q) ↦ inr (e, time_less-ByTime a b q)
        ]

    job_less-ByJob : (want : Bool) (a b : SubState f X) → job_less want b a ≡ false → ByJob want a b
    unfolding job_less
    job_less-ByJob false a b h = starvation_less-ByStarvation a b h
    job_less-ByJob true a b h =
        elim (key-before down-IsTotal a.job_prio b.job_prio (starvation_less b a) h) [
          | inl l ↦ inl l
          | inr (e, q) ↦ inr (e, starvation_less-ByStarvation a b q)
        ]

    precedes-ByPrio :
        (want : Bool) (prio : Text → f.R) (a b : SubState f X)
        → precedes f want prio b a ≡ false
        → ByPrio want prio a b
    precedes-ByPrio want prio a b h =
        elim (key-before floats-IsTotal (prio a.name) (prio b.name) (job_less want b a)
          (sym (precedes-keys want prio b a) ∙ h)) [
            | inl l ↦ inl l
            | inr (e, q) ↦ inr (e, job_less-ByJob want a b q)
          ]

    InOrder-map :
        (R S : SubState f X → SubState f X → Type 0)
        → ((a b : SubState f X) → R a b → S a b)
        → (subs : List (SubState f X)) → InOrder R subs
        → InOrder S subs
    InOrder-map R S g [] h = tt
    InOrder-map R S g (a ∷ []) h = tt
    InOrder-map R S g (a ∷ b ∷ rest) (h, hs) = (g a b h, InOrder-map R S g (b ∷ rest) hs)

    -- The submitters of a spin are negotiated in this order: the lower value of the priority first, then
    -- the higher job priority where that counts, then the lower starvation, then the time, and then the
    -- place among the submitter ads; and none is dropped or repeated, as many pass any test before as
    -- after. The sort does what is documented of one, where its comparison is an order.
    pub sort_submitters-ByPrio :
        (sort : Sort f X)
        → IsSort sort
        → (want_job_prio : Bool) (prio : Text → f.R) (p : SubState f X → Bool)
          (subs : List (SubState f X))
        → InOrder (ByPrio want_job_prio prio) (sort_submitters f sort want_job_prio prio subs)
          × (length (keep p (sort_submitters f sort want_job_prio prio subs))
              ≡ length (keep p subs))
    unfolding sort_submitters
    sort_submitters-ByPrio sort laws want prio p subs = (
      InOrder-map (λ a b. precedes f want prio b a ≡ false) (ByPrio want prio)
          (precedes-ByPrio want prio) (sort (precedes f want prio) subs)
          (laws.sorts (precedes f want prio) subs (precedes-IsWeakOrder want prio)),
      laws.keeps (precedes f want prio) subs p,
    )
