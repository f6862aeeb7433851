-- ===== src/Linstorcontrol/Status/Laws.antt =====
-- The overall state of a resource beside the states of its volumes.
use linstor_gateway.Base.{
  ◌≤◌, ◌≡◌, refl, sym, ◌∙◌, ◌⊎◌, inl, inr, Bool, true, false, List, [], ◌∷◌, arith, ltb,
  if◌then◌else◌,
}
use linstor_gateway.Base.Int.{ltb_ℤ}
use linstor_gateway.Base.Text.{Text}
use linstor_gateway.Linstor.{ResourceWithVolumes, ResourceDefinition, ResourceGroup}
use linstor_gateway.Common.Status.{ResourceState, unknown, rank, VolumeState, ResourceStatus}
use linstor_gateway.Linstorcontrol.Status.{
  worst_state, insert_state, sort_states, volume_states, volume_by_number, status_from_resources,
}

-- No volume is in a worse state.
abbrev pub NoneWorse : ResourceState → List VolumeState → Type 0
NoneWorse s [] = Unit
NoneWorse s (v ∷ vs) = (rank v.state ≤ rank s) × NoneWorse s vs

-- Some volume is in the state.
abbrev pub SomeIn : ResourceState → List VolumeState → Type 0
SomeIn s [] = ⊥
SomeIn s (v ∷ vs) = (v.state ≡ s) ⊎ SomeIn s vs

abbrev worse : ResourceState → ResourceState → ResourceState
worse s t = if ltb (rank s) (rank t) then t else s

worse_left : (s t : ResourceState) → rank s ≤ rank (worse s t)
worse_left s t = ground arith

worse_right : (s t : ResourceState) → rank t ≤ rank (worse s t)
worse_right s t = ground arith

worse_either : (s t : ResourceState) → (worse s t ≡ s) ⊎ (t ≡ worse s t)
worse_either s t = go (ltb (rank s) (rank t))
  where
    go : (b : Bool) → ((if b then t else s) ≡ s) ⊎ (t ≡ (if b then t else s))
    go true = inr refl
    go false = inl refl

worst_state_starts : (s : ResourceState) (vs : List VolumeState) → rank s ≤ rank (worst_state s vs)
unfolding worst_state
worst_state_starts s [] = omega arith
worst_state_starts s (v ∷ vs) =
    omega (arith, worse_left s v.state, worst_state_starts (worse s v.state) vs)

worst_state-NoneWorse :
    (s : ResourceState) (vs : List VolumeState) → NoneWorse (worst_state s vs) vs
unfolding worst_state
worst_state-NoneWorse s [] = tt
worst_state-NoneWorse s (v ∷ vs) = (
  omega (arith, worse_right s v.state, worst_state_starts (worse s v.state) vs),
  worst_state-NoneWorse (worse s v.state) vs,
)

worst_state-SomeIn :
    (s : ResourceState) (vs : List VolumeState)
    → (worst_state s vs ≡ s) ⊎ SomeIn (worst_state s vs) vs
unfolding worst_state
worst_state-SomeIn s [] = inl refl
worst_state-SomeIn s (v ∷ vs) = elim (worst_state-SomeIn (worse s v.state) vs) [
  | inr h ↦ inr (inr h)
  | inl h ↦ elim (worse_either s v.state) [ inl e ↦ inl (h ∙ e) | inr e ↦ inr (inl (e ∙ sym h)) ]
]

module _ (s : ResourceState) where
  insert-NoneWorse :
      (v : VolumeState) (ws : List VolumeState)
      → rank v.state ≤ rank s
      → NoneWorse s ws
      → NoneWorse s (insert_state v ws)
  unfolding insert_state
  insert-NoneWorse v [] h k = (h, tt)
  insert-NoneWorse v (w ∷ ws) h k = go (ltb_ℤ w.number v.number) (insert-NoneWorse v ws h k.1)
    where
      go :
          (b : Bool)
          → NoneWorse s (insert_state v ws)
          → NoneWorse s (if b then w ∷ insert_state v ws else v ∷ w ∷ ws)
      go true r = (k.0, r)
      go false r = (h, k)

  sort-NoneWorse : (vs : List VolumeState) → NoneWorse s vs → NoneWorse s (sort_states vs)
  unfolding sort_states
  sort-NoneWorse [] h = tt
  sort-NoneWorse (v ∷ vs) h = insert-NoneWorse v (sort_states vs) h.0 (sort-NoneWorse vs h.1)

  insert-SomeIn :
      (v : VolumeState) (ws : List VolumeState)
      → (v.state ≡ s) ⊎ SomeIn s ws
      → SomeIn s (insert_state v ws)
  unfolding insert_state
  insert-SomeIn v [] h = h
  insert-SomeIn v (w ∷ ws) h = go (ltb_ℤ w.number v.number) h (insert-SomeIn v ws)
    where
      go :
          (b : Bool)
          → (v.state ≡ s) ⊎ SomeIn s (w ∷ ws)
          → ((v.state ≡ s) ⊎ SomeIn s ws → SomeIn s (insert_state v ws))
          → SomeIn s (if b then w ∷ insert_state v ws else v ∷ w ∷ ws)
      go true (inl e) k = inr (k (inl e))
      go true (inr (inl e)) k = inl e
      go true (inr (inr r)) k = inr (k (inr r))
      go false r k = r

  sort-SomeIn : (vs : List VolumeState) → SomeIn s vs → SomeIn s (sort_states vs)
  unfolding sort_states
  sort-SomeIn [] h = h
  sort-SomeIn (v ∷ vs) (inl e) = insert-SomeIn v (sort_states vs) (inl e)
  sort-SomeIn (v ∷ vs) (inr h) = insert-SomeIn v (sort_states vs) (inr (sort-SomeIn vs h))

-- The overall state is the worst of the states of the volumes: none is in a worse one, and some
-- volume is in it, unless it is unknown.
abbrev pub IsWorst : ResourceStatus → Type 0
IsWorst status =
    NoneWorse status.state status.volumes
    × ((status.state ≡ unknown) ⊎ SomeIn status.state status.volumes)

-- The overall state in the status of a resource is the worst of the states of the volumes in it: no
-- volume is in a worse one, and some volume is in it, unless it is unknown.
pub status_from_resources-IsWorst :
    (path : Text) (definition : ResourceDefinition) (group : ResourceGroup)
    (resources : List ResourceWithVolumes)
    → IsWorst (status_from_resources path definition group resources)
unfolding status_from_resources
status_from_resources-IsWorst path definition group resources =
    let states = volume_states group.place_count (volume_by_number resources []) in
    let worst = worst_state unknown states in
    (
      sort-NoneWorse worst states (worst_state-NoneWorse unknown states),
      elim (worst_state-SomeIn unknown states) [
        | inl e ↦ inl e
        | inr h ↦ inr (sort-SomeIn worst states h)
      ],
    )
