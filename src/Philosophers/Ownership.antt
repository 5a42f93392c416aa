-- ===== src/Philosophers/Ownership.antt =====
-- Who has which fork locked, told from where the threads stand.
use operating_systems_agh_la.Base.{
  ℕ, ◌<◌, ◌≡◌, Bool, true, Option, none, some, arith, ◌==◌, ◌||◌, ◌&&◌, not,
}
use operating_systems_agh_la.Base.Maps.{update}
use operating_systems_agh_la.Philosophers.Table.{size}

-- `holds i p f`: the thread `i` has the fork `f` locked when it stands at `p`.
module _ {Pc : Type 0} (holds : ℕ → Pc → ℕ → Bool) where
  pub record IsOwned (pc : ℕ → Pc) (forks : ℕ → Option ℕ) : Type 0 where
    pub held : (i f : ℕ) → i < size → holds i (pc i) f ≡ true → forks f ≡ some i
    pub holder : (i f : ℕ) → forks f ≡ some i → (i < size) × (holds i (pc i) f ≡ true)

  module _ {pc : ℕ → Pc} {forks : ℕ → Option ℕ} (o : IsOwned pc forks) (i : ℕ) (p : Pc) where
    pub stay : ((f : ℕ) → holds i p f ≡ holds i (pc i) f) → IsOwned (update pc i p) forks
    stay same = record {
      held = λ j f lt h. ground (arith, o.held j f lt, same f);
      holder = λ j f e. ground (arith, o.holder j f e, same f);
    }

    pub take :
        (g : ℕ)
        → i < size
        → forks g ≡ none
        → ((f : ℕ) → holds i p f ≡ (f == g) || holds i (pc i) f)
        → IsOwned (update pc i p) (update forks g (some i))
    take g lt free more = record {
      held = λ j f lt h. ground (arith, o.held j f, more f);
      holder = λ j f e. ground (arith, o.holder j f, more f);
    }

    pub drop :
        (g : ℕ)
        → i < size
        → holds i (pc i) g ≡ true
        → ((f : ℕ) → holds i p f ≡ not (f == g) && holds i (pc i) f)
        → IsOwned (update pc i p) (update forks g none)
    drop g lt had less = record {
      held = λ j f in_range h. ground (arith, o.held j f, o.held i g lt had, less f);
      holder = λ j f e. ground (arith, o.holder j f, less f);
    }
