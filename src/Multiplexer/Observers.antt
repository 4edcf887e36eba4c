-- ===== src/Multiplexer/Observers.antt =====
-- The ids of the observers.
use pointer_force.Prelude.{
  In, inl, inr, ℕ, suc, ◌+◌, ◌≤◌, ◌<◌, ◌≡◌, refl, none, some, List, [], ◌∷◌, arith, nat_beq_iff,
  if◌then◌else◌, ◌==◌, string_eq, int_eq, nat_eq,
}
use pointer_force.Assoc.{Assoc, find, assign, erase, find-assign}
use pointer_force.Multiplexer.{
  Shared, Observer, add_observer, remove_observer, Outside, event_pushed, terminate_signal,
  reload_signal, observer_added, observer_removed, table_changed, config_changed, outside_step,
  outside_steps,
}

-- The ids rise along the list, from `lo` on and below `hi`: the order in which a std::map iterates.
abbrev pub Rising : ℕ → ℕ → Assoc ℕ Observer → Type 0
Rising lo hi [] = lo ≤ hi
Rising lo hi ((id, obs) ∷ rest) = (lo ≤ id) × (id < hi) × Rising (suc id) hi rest

abbrev pub IsOrdered : Shared → Type 0
IsOrdered s = Rising 0 s.next_obs_id s.observers

Rising-le : (lo hi : ℕ) (m : Assoc ℕ Observer) → Rising lo hi m → lo ≤ hi
Rising-le lo hi [] r = r
Rising-le lo hi ((id, obs) ∷ m) r = omega (arith, r.0, r.1)

Rising-lower : (lo lo' hi : ℕ) (m : Assoc ℕ Observer) → lo' ≤ lo → Rising lo hi m → Rising lo' hi m
Rising-lower lo lo' hi [] h r = omega arith
Rising-lower lo lo' hi ((id, obs) ∷ m) h r = (omega (arith, r.0), r.1, r.2)

find_above : (lo hi k : ℕ) (m : Assoc ℕ Observer) → Rising lo hi m → hi ≤ k → find k m ≡ none
unfolding find
find_above lo hi k [] r h = refl
find_above lo hi k ((id, obs) ∷ m) r h =
    ground (arith, find_above (suc id) hi k m r.2 h, r.1, nat_beq_iff id k)

In-Rising :
    (lo hi id : ℕ) (obs : Observer) (m : Assoc ℕ Observer)
    → Rising lo hi m
    → In (id, obs) m
    → (find id m ≡ some obs) × (lo ≤ id)
unfolding find
In-Rising lo hi id obs [] r h = absurd h
In-Rising lo hi id obs ((k, x) ∷ m) r (inl e) = ground (arith, nat_beq_iff k id)
In-Rising lo hi id obs ((k, x) ∷ m) r (inr h) =
    ground (arith, In-Rising (suc k) hi id obs m r.2 h, nat_beq_iff k id)

-- With ordered ids each observer is the one that its id finds.
pub In-ordered :
    (id : ℕ) (obs : Observer) (s : Shared)
    → IsOrdered s
    → In (id, obs) s.observers
    → find id s.observers ≡ some obs
In-ordered id obs s r h = (In-Rising 0 s.next_obs_id id obs s.observers r h).0

assign-Rising :
    (lo hi : ℕ) (obs : Observer) (m : Assoc ℕ Observer)
    → Rising lo hi m
    → Rising lo (hi + 1) (assign hi obs m)
unfolding assign
assign-Rising lo hi obs [] r = (r, omega arith, omega arith)
assign-Rising lo hi obs ((id, x) ∷ m) r =
    ground (arith, assign-Rising (suc id) hi obs m r.2, nat_beq_iff id hi)

erase-Rising : (lo hi k : ℕ) (m : Assoc ℕ Observer) → Rising lo hi m → Rising lo hi (erase k m)
unfolding erase
erase-Rising lo hi k [] r = r
erase-Rising lo hi k ((id, x) ∷ m) r =
    ground (arith, erase-Rising (suc id) hi k m r.2, Rising-lower (suc id) lo hi (erase k m))

-- A new observer gets an id that none has, it is found under that id and the other observers under
-- theirs, and the ids stay in order.
pub add_observer_fresh :
    (s : Shared) (obs : Observer) (k : ℕ)
    → IsOrdered s
    → (find (add_observer obs s).0 s.observers ≡ none)
      × (find k (add_observer obs s).1.observers
          ≡ (if (add_observer obs s).0 == k then some obs else find k s.observers))
      × IsOrdered (add_observer obs s).1
unfolding add_observer
add_observer_fresh s obs k r = (
  find_above 0 s.next_obs_id s.next_obs_id s.observers r (omega arith),
  find-assign s.next_obs_id k obs s.observers,
  assign-Rising 0 s.next_obs_id obs s.observers r,
)

pub remove_observer-IsOrdered :
    (id : ℕ) (s : Shared) → IsOrdered s → IsOrdered (remove_observer id s)
unfolding remove_observer
remove_observer-IsOrdered id s r = erase-Rising 0 s.next_obs_id id s.observers r

pub outside_step-IsOrdered : (o : Outside) (s : Shared) → IsOrdered s → IsOrdered (outside_step o s)
unfolding outside_step add_observer remove_observer
outside_step-IsOrdered (event_pushed ev) s r = r
outside_step-IsOrdered terminate_signal s r = r
outside_step-IsOrdered reload_signal s r = r
outside_step-IsOrdered (observer_added obs) s r = assign-Rising 0 s.next_obs_id obs s.observers r
outside_step-IsOrdered (observer_removed id) s r = erase-Rising 0 s.next_obs_id id s.observers r
outside_step-IsOrdered (table_changed t) s r = r
outside_step-IsOrdered (config_changed c) s r = r

pub outside_steps-IsOrdered :
    (os : List Outside) (s : Shared) → IsOrdered s → IsOrdered (outside_steps os s)
unfolding outside_steps
outside_steps-IsOrdered [] s r = r
outside_steps-IsOrdered (o ∷ os) s r =
    outside_steps-IsOrdered os (outside_step o s) (outside_step-IsOrdered o s r)
