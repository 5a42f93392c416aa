-- ===== src/StreamServer/Unlink.antt =====
-- lab10/zad2/server.c: a client is taken out of the linked list.
use operating_systems_agh_la.Base.{
  ℕ, ◌<◌, ◌≡◌, ◌≢◌, refl, sym, ap, subst, ◌∙◌, ◌⊎◌, inl, inr, true, false, Option, some, List, [],
  ◌∷◌, ◌++◌, length, length-append, ◌==◌, arith,
}
use operating_systems_agh_la.Base.Maps.{update}
use operating_systems_agh_la.Base.Slices.{append_assoc}
use operating_systems_agh_la.StreamServer.{Ptr, null, Node, State, ok, previous_from, unlink}
use operating_systems_agh_la.StreamServer.Links.{
  Row, first, node_of, Linked, Elsewhere, Distinct, IsList, previous_from-last, Elsewhere-middle,
}

pub Linked-update :
    (nodes : Ptr → Option Node) (p : Ptr) (v : Option Node) (rows : List Row)
    → Elsewhere p rows
    → Linked nodes rows
    → Linked (update nodes p v) rows
Linked-update nodes p v [] away l = tt
Linked-update nodes p v (r ∷ rs) away l =
    let other : (r.at == p) ≡ false = ground (arith, away.0) in
    (l.0, rw (other, update) l.1, Linked-update nodes p v rs away.1 l.2)

Elsewhere-at :
    (p : Ptr) (front : List Row) (me : Row) (back : List Row)
    → Elsewhere p (front ++ (me ∷ back))
    → me.at ≢ p
Elsewhere-at p [] me back e = e.0
Elsewhere-at p (r ∷ rs) me back e = Elsewhere-at p rs me back e.1

Elsewhere-cut :
    (p : Ptr) (front : List Row) (me : Row) (back : List Row)
    → Elsewhere p (front ++ (me ∷ back))
    → Elsewhere p (front ++ back)
Elsewhere-cut p [] me back e = e.1
Elsewhere-cut p (r ∷ rs) me back e = (e.0, Elsewhere-cut p rs me back e.1)

pub Distinct-cut :
    (front : List Row) (me : Row) (back : List Row)
    → Distinct (front ++ (me ∷ back))
    → Distinct (front ++ back) × Elsewhere me.at (front ++ back)
Distinct-cut [] me back d = (d.1, d.0)
Distinct-cut (r ∷ rs) me back d =
    let rest = Distinct-cut rs me back d.1 in
    (
      (Elsewhere-cut r.at rs me back d.0, rest.0),
      ((λ e. Elsewhere-at r.at rs me back d.0 (sym e)), rest.1),
    )

pub Linked-at :
    (nodes : Ptr → Option Node) (front : List Row) (me : Row) (back : List Row)
    → Linked nodes (front ++ (me ∷ back))
    → (me.at ≢ null) × (nodes me.at ≡ some (node_of me (first back)))
Linked-at nodes [] me back l = (l.0, l.1)
Linked-at nodes (r ∷ rs) me back l = Linked-at nodes rs me back l.2

Linked-second :
    (nodes : Ptr → Option Node) (front : List Row) (prev me : Row) (back : List Row)
    → Linked nodes (front ++ (prev ∷ me ∷ back))
    → (me.at ≢ null) × (nodes me.at ≡ some (node_of me (first back)))
Linked-second nodes [] prev me back l = (l.2.0, l.2.1)
Linked-second nodes (r ∷ rs) prev me back l = Linked-second nodes rs prev me back l.2

first-other :
    (front : List Row) (prev me : Row) (back : List Row)
    → Distinct (front ++ (prev ∷ me ∷ back))
    → first (front ++ (prev ∷ me ∷ back)) ≢ me.at
first-other [] prev me back d = λ same. d.0.0 (sym same)
first-other (r ∷ rs) prev me back d = Elsewhere-middle r.at rs prev me back d.0

first-cut :
    (rs : List Row) (prev me : Row) (back : List Row)
    → first (rs ++ (prev ∷ me ∷ back)) ≡ first (rs ++ (prev ∷ back))
first-cut [] prev me back = refl
first-cut (r ∷ rs) prev me back = refl

Linked-bypass :
    (nodes : Ptr → Option Node) (front : List Row) (prev me : Row) (back : List Row)
    → Linked nodes (front ++ (prev ∷ me ∷ back))
    → Distinct (front ++ (prev ∷ me ∷ back))
    → Linked (update nodes prev.at (some (node_of prev (first back)))) (front ++ (prev ∷ back))
Linked-bypass nodes [] prev me back l d =
    let this : (prev.at == prev.at) ≡ true = ground arith in
    (
      l.0,
      rw (this, update) refl,
      Linked-update nodes prev.at (some (node_of prev (first back))) back d.0.1 l.2.2,
    )
Linked-bypass nodes (r ∷ rs) prev me back l d =
    let ne = Elsewhere-at r.at rs prev (me ∷ back) d.0 in
    let other : (r.at == prev.at) ≡ false = ground (arith, ne) in
    (
      l.0,
      rw (other, update) (l.1 ∙ ap (λ p. some (node_of r p)) (first-cut rs prev me back)),
      Linked-bypass nodes rs prev me back l.2 d.1,
    )

-- The last one of a list.
snoc_cases :
    (front : List Row) → (front ≡ []) ⊎ ((rs : List Row) × (r : Row) × (front ≡ rs ++ (r ∷ [])))
snoc_cases [] = inl refl
snoc_cases (x ∷ xs) = elim (snoc_cases xs) [
  | inl e ↦ inr ([], x, ap (λ ys. x ∷ ys) e)
  | inr (rs, r, e) ↦ inr (x ∷ rs, r, ap (λ ys. x ∷ ys) e)
]

module _ (n : ℕ) (s : State) where
  unlink-first :
      (me : Row) (back : List Row)
      → IsList s (me ∷ back)
      → unlink n s me.at ≡ ok (record s { head = first back })
  unfolding unlink
  unlink-first me back is =
      let at = is.linked in
      let not_null : (me.at == null) ≡ false = ground (arith, at.0) in
      let this : (s.head == me.at) ≡ true = ground (arith, is.from_head) in
      rw (not_null, at.1, this) refl

  unlink-behind :
      (front : List Row) (prev me : Row) (back : List Row)
      → length front < n
      → IsList s (front ++ (prev ∷ me ∷ back))
      → unlink n s me.at
        ≡ ok (record s { nodes = update s.nodes prev.at (some (node_of prev (first back))) })
  unfolding unlink
  unlink-behind front prev me back fuel is =
      let at_me = Linked-second s.nodes front prev me back is.linked in
      let at_prev = Linked-at s.nodes front prev (me ∷ back) is.linked in
      let here : (me.at == null) ≡ false = ground (arith, at_me.0) in
      let there : (prev.at == null) ≡ false = ground (arith, at_prev.0) in
      let not_first : (s.head == me.at) ≡ false =
        ground (arith, is.from_head, first-other front prev me back is.distinct) in
      let found =
        ap (previous_from n s me.at) is.from_head
        ∙ previous_from-last s n front prev me back fuel is.linked is.distinct in
      rw (here, at_me.1, not_first, found, there, at_prev.1, here) refl

  -- The list without `me`, which no client of it is at.
  abbrev pub IsListWithout : Ptr → List Row → State → Type 0
  IsListWithout p rows s' = IsList s' rows × Elsewhere p rows × (s'.list_locked ≡ s.list_locked)

  first_out :
      (me : Row) (back : List Row)
      → IsList s (me ∷ back)
      → (s' : State) × (unlink n s me.at ≡ ok s') × IsListWithout me.at back s'
  first_out me back is = (
    record s { head = first back },
    unlink-first me back is,
    (
      record { from_head = refl; linked = is.linked.2; distinct = is.distinct.1 },
      is.distinct.0,
      refl,
    ),
  )

  later_out :
      (front : List Row) (prev me : Row) (back : List Row)
      → length front < n
      → IsList s (front ++ (prev ∷ me ∷ back))
      → (s' : State) × (unlink n s me.at ≡ ok s') × IsListWithout me.at (front ++ (prev ∷ back)) s'
  later_out front prev me back fuel is =
      let whole : (front ++ (prev ∷ [])) ++ (me ∷ back) ≡ front ++ (prev ∷ me ∷ back) =
        append_assoc front (prev ∷ []) (me ∷ back) in
      let cut =
        Distinct-cut (front ++ (prev ∷ [])) me back (subst Distinct (sym whole) is.distinct) in
      let shape = append_assoc front (prev ∷ []) back in
      (
        record s { nodes = update s.nodes prev.at (some (node_of prev (first back))) },
        unlink-behind front prev me back fuel is,
        (
          record {
            from_head = is.from_head ∙ first-cut front prev me back;
            linked = Linked-bypass s.nodes front prev me back is.linked is.distinct;
            distinct = subst Distinct shape cut.0;
          },
          subst (Elsewhere me.at) shape cut.1,
          refl,
        ),
      )

  pub unlink-IsListWithout :
      (front : List Row) (me : Row) (back : List Row)
      → length front < n
      → IsList s (front ++ (me ∷ back))
      → (s' : State) × (unlink n s me.at ≡ ok s') × IsListWithout me.at (front ++ back) s'
  unlink-IsListWithout front me back fuel is = elim (snoc_cases front) [
    | inl e ↦
        subst (λ f. (s' : State) × (unlink n s me.at ≡ ok s') × IsListWithout me.at (f ++ back) s')
          (sym e) (first_out me back (subst (λ f. IsList s (f ++ (me ∷ back))) e is))
    | inr (rs, prev, e) ↦
        let l = ap length e in
        let shorter : length rs < n = omega (arith, length-append rs (prev ∷ [])) in
        let is' = subst (λ f. IsList s (f ++ (me ∷ back))) e is in
        let out =
          later_out rs prev me back shorter
            (subst (IsList s) (append_assoc rs (prev ∷ []) (me ∷ back)) is') in
        subst (λ rows. (s' : State) × (unlink n s me.at ≡ ok s') × IsListWithout me.at rows s')
          (sym (ap (λ f. f ++ back) e ∙ append_assoc rs (prev ∷ []) back)) out
  ]
