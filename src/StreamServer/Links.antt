-- ===== src/StreamServer/Links.antt =====
-- lab10/zad2/server.c: the linked list of clients.
use operating_systems_agh_la.Base.{
  ℕ, zero, suc, ◌+◌, ◌-◌, ◌<◌, ◌≤◌, ◌≡◌, ◌≢◌, refl, sym, ap, ◌∙◌, inl, inr, true, false, Option,
  some, List, [], ◌∷◌, ◌++◌, map, take, drop, length, ◌==◌, leb, arith, Bool-cases,
}
use operating_systems_agh_la.StreamServer.{
  Ptr, null, Text, Node, State, ok, read_node, number_from, names_from, previous_from, nth_client,
  max_clients,
}

-- A client in the list: the address of its `client_t`, and what that holds.
pub record Row : Type 0 where
  pub at : Ptr
  pub name : Text
  pub socket : ℕ

abbrev pub first : List Row → Ptr
first [] = null
first (r ∷ rs) = r.at

abbrev pub node_of : Row → Ptr → Node
node_of r next = record { name = r.name; socket = r.socket; next = next }

-- The clients stand in memory, each with the address of the next one.
abbrev pub Linked : (Ptr → Option Node) → List Row → Type 0
Linked nodes [] = Unit
Linked nodes (r ∷ rs) = (r.at ≢ null) × (nodes r.at ≡ some (node_of r (first rs))) × Linked nodes rs

-- No client of the list is at this address.
abbrev pub Elsewhere : Ptr → List Row → Type 0
Elsewhere p [] = Unit
Elsewhere p (r ∷ rs) = (r.at ≢ p) × Elsewhere p rs

abbrev pub Distinct : List Row → Type 0
Distinct [] = Unit
Distinct (r ∷ rs) = Elsewhere r.at rs × Distinct rs

pub record IsList (s : State) (rows : List Row) : Type 0 where
  pub from_head : s.head ≡ first rows
  pub linked : Linked s.nodes rows
  pub distinct : Distinct rows

pub read_node-some :
    (s : State) (p : Ptr) (c : Node) → p ≢ null → s.nodes p ≡ some c → read_node s p ≡ ok c
read_node-some s p c ne e =
    let not_null : (p == null) ≡ false = ground arith in rw (not_null, e, read_node) refl

pub Elsewhere-middle :
    (p : Ptr) (rs : List Row) (prev me : Row) (back : List Row)
    → Elsewhere p (rs ++ (prev ∷ me ∷ back))
    → p ≢ me.at
Elsewhere-middle p [] prev me back e = λ same. e.1.0 (sym same)
Elsewhere-middle p (r ∷ rs) prev me back e = Elsewhere-middle p rs prev me back e.1

module _ (s : State) where
  pub names_from-take :
      (n i : ℕ) (rows : List Row)
      → length rows < n
      → i ≤ max_clients
      → Linked s.nodes rows
      → names_from n s (first rows) i ≡ ok (map (λ r. r.name) (take (max_clients - i) rows))
  unfolding names_from
  names_from-take zero i rows fuel le l = absurd (omega arith)
  names_from-take (suc n) i [] fuel le l = ap ok (sym (nothing (max_clients - i)))
    where
      nothing : (m : ℕ) → map (λ r. r.name) (take {A = Row} m []) ≡ []
      nothing zero = refl
      nothing (suc m) = refl
  names_from-take (suc n) i (r ∷ rs) fuel le l =
      let not_null : (r.at == null) ≡ false = ground (arith, l.0) in
      elim (Bool-cases (leb max_clients i)) [
        | inl full ↦
            let no_room : max_clients - i ≡ 0 = ground arith in rw (not_null, full, no_room) refl
        | inr more ↦
            let room : max_clients - i ≡ suc (max_clients - suc i) = ground arith in
            rw (not_null, more, l.1, room)
              (rw (names_from-take n (suc i) rs (omega arith) (ground arith) l.2) refl)
      ]

  pub nth_client-first :
      (n : ℕ) (rows : List Row)
      → Linked s.nodes rows
      → nth_client n s (first rows) ≡ ok (first (drop n rows))
  unfolding nth_client
  nth_client-first zero rows l = refl
  nth_client-first (suc n) [] l = refl
  nth_client-first (suc n) (r ∷ rs) l =
      let not_null : (r.at == null) ≡ false = ground (arith, l.0) in
      rw (not_null, l.1) (nth_client-first n rs l.2)

  pub number_from-found :
      (n i : ℕ) (front : List Row) (me : Row) (back : List Row)
      → length front < n
      → Linked s.nodes (front ++ (me ∷ back))
      → Elsewhere me.at front
      → number_from n s me.at (first (front ++ (me ∷ back))) i ≡ ok (some (i + length front))
  unfolding number_from
  number_from-found zero i front me back fuel l away = absurd (omega arith)
  number_from-found (suc n) i [] me back fuel l away =
      let this : (me.at == me.at) ≡ true = ground arith in
      let not_null : (me.at == null) ≡ false = ground (arith, l.0) in
      let same : i ≡ i + 0 = omega arith in rw (this, not_null) (ap (λ k. ok (some k)) same)
  number_from-found (suc n) i (r ∷ rs) me back fuel l away =
      let other : (r.at == me.at) ≡ false = ground (arith, away.0) in
      let not_null : (r.at == null) ≡ false = ground (arith, l.0) in
      let next : suc i + length rs ≡ i + suc (length rs) = omega arith in
      rw (other, not_null, l.1)
        (number_from-found n (suc i) rs me back (omega arith) l.2 away.1
          ∙ ap (λ k. ok (some k)) next)

  pub previous_from-last :
      (n : ℕ) (front : List Row) (prev me : Row) (back : List Row)
      → length front < n
      → Linked s.nodes (front ++ (prev ∷ me ∷ back))
      → Distinct (front ++ (prev ∷ me ∷ back))
      → previous_from n s me.at (first (front ++ (prev ∷ me ∷ back))) ≡ ok prev.at
  unfolding previous_from
  previous_from-last zero front prev me back fuel l d = absurd (omega arith)
  previous_from-last (suc n) [] prev me back fuel l d =
      let not_null : (prev.at == null) ≡ false = ground (arith, l.0) in
      let this : (me.at == me.at) ≡ true = ground arith in rw (not_null, l.1, this) refl
  previous_from-last (suc n) (r ∷ []) prev me back fuel l d =
      let not_null : (r.at == null) ≡ false = ground (arith, l.0) in
      let other : (prev.at == me.at) ≡ false = ground (arith, d.1.0.0) in
      let there : (prev.at == null) ≡ false = ground (arith, l.2.0) in
      rw (not_null, l.1, other, there) (previous_from-last n [] prev me back (omega arith) l.2 d.1)
  previous_from-last (suc n) (r ∷ q ∷ rs) prev me back fuel l d =
      let not_null : (r.at == null) ≡ false = ground (arith, l.0) in
      let other : (q.at == me.at) ≡ false =
        ground (arith, Elsewhere-middle q.at rs prev me back d.1.0) in
      let there : (q.at == null) ≡ false = ground (arith, l.2.0) in
      rw (not_null, l.1, other, there)
        (previous_from-last n (q ∷ rs) prev me back (omega arith) l.2 d.1)
