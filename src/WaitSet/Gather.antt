-- ===== src/WaitSet/Gather.antt =====
-- What `waitset_detach` and `gather_event_entities` of rmw_cyclonedds_cpp/src/rmw_node.cpp attach and detach.
use rmw_cyclonedds.Base.{
  ℕ, ◌≡◌, refl, ap, ◌∙◌, arith, true, ◌||◌, none, some, List, [], ◌∷◌, ◌++◌, map, length,
  length-append, length-map, ◌==◌, if◌then◌else◌, inl, inr, Option-cases, ret_ok,
}
use rmw_cyclonedds.Events.{StatusKind, mask_map}
use rmw_cyclonedds.Dds.{Dds}
use rmw_cyclonedds.WaitSet.{
  CddsEvent, Objects, CddsWaitset, member, Masks, add_entity, gather_masks, mask_of, add_event,
}
use rmw_cyclonedds.WaitSet.Wait.{detach_cached, set_masks, gather_event_entities, conditions}
use rmw_cyclonedds.WaitSet.Attached.{
  event_entities, member-append, attached-detach_all, attached-detach_events,
}

-- The entities of the cached conditions, in the order of their numbers.
abbrev pub handles : Objects → CddsWaitset → List ℕ
handles m ws =
    map m.sub_rdcondh ws.subs
    ++ (map m.gcondh ws.gcs ++ (map m.srv_rdcondh ws.srvs ++ map m.cl_rdcondh ws.cls))

module _ (d : Dds) (m : Objects) where
  pub attached-detach_cached :
      (ws : CddsWaitset) (e : ℕ) (s : d.State)
      → d.attached (detach_cached d m ws s) ws.waitseth e ≡ (
          if member e (handles m ws ++ event_entities ws.evs)
          then none
          else d.attached s ws.waitseth e)
  unfolding detach_cached member
  attached-detach_cached ws e s =
      rw
        (
          attached-detach_events d m ws.waitseth ws.evs [] e _,
          attached-detach_all d m ws.waitseth (map m.cl_rdcondh ws.cls) e _,
          attached-detach_all d m ws.waitseth (map m.srv_rdcondh ws.srvs) e _,
          attached-detach_all d m ws.waitseth (map m.gcondh ws.gcs) e _,
          attached-detach_all d m ws.waitseth (map m.sub_rdcondh ws.subs) e s,
          member-append e (handles m ws) (event_entities ws.evs),
          member-append e (map m.sub_rdcondh ws.subs)
              (map m.gcondh ws.gcs ++ (map m.srv_rdcondh ws.srvs ++ map m.cl_rdcondh ws.cls)),
          member-append e (map m.gcondh ws.gcs)
              (map m.srv_rdcondh ws.srvs ++ map m.cl_rdcondh ws.cls),
          member-append e (map m.srv_rdcondh ws.srvs) (map m.cl_rdcondh ws.cls),
        )
        (ground (arith))

  pub length-handles : (ws : CddsWaitset) → length (handles m ws) ≡ conditions d m ws
  length-handles ws =
      rw
        (
          length-append (map m.sub_rdcondh ws.subs)
              (map m.gcondh ws.gcs ++ (map m.srv_rdcondh ws.srvs ++ map m.cl_rdcondh ws.cls)),
          length-append (map m.gcondh ws.gcs)
              (map m.srv_rdcondh ws.srvs ++ map m.cl_rdcondh ws.cls),
          length-append (map m.srv_rdcondh ws.srvs) (map m.cl_rdcondh ws.cls),
          length-map ws.subs m.sub_rdcondh,
          length-map ws.gcs m.gcondh,
          length-map ws.srvs m.srv_rdcondh,
          length-map ws.cls m.cl_rdcondh,
        )
        refl

  attached-set_masks :
      (masks : Masks) (s : d.State) (ws e : ℕ)
      → d.attached (set_masks d m masks s).2 ws e ≡ d.attached s ws e
  unfolding set_masks
  attached-set_masks [] s ws e = refl
  attached-set_masks ((x, mask) ∷ masks) s ws e = elim (Option-cases (d.set_status_mask x mask s)) [
    | inl failed ↦ rw (set_masks, failed) refl
    | inr (s', done) ↦
        rw (set_masks, done)
          (attached-set_masks masks s' ws e ∙ d.attached-set_status_mask s s' x ws e mask done)
  ]

  pub attached-gather :
      (cs : List CddsEvent) (s : d.State) (ws e : ℕ)
      → d.attached (gather_event_entities d m cs s).2 ws e ≡ d.attached s ws e
  unfolding gather_event_entities
  attached-gather cs s ws e = elim (Option-cases (gather_masks cs [])) [
    | inl failed ↦ rw (gather_event_entities, failed) refl
    | inr (masks, found) ↦ rw (gather_event_entities, found) (attached-set_masks masks s ws e)
  ]

abbrev pub keys : Masks → List ℕ
keys [] = []
keys ((e, mask) ∷ masks) = e ∷ keys masks

-- The entities of the cached events that have a status.
unfoldable pub watched : List CddsEvent → List ℕ
watched [] = []
watched (c ∷ cs) = elim (mask_map c.event_type) [
  | some kind ↦ c.enth ∷ watched cs
  | none ↦ watched cs
]

pub watched-event_entities :
    (e : ℕ) (cs : List CddsEvent)
    → member e (watched cs) ≡ true
    → member e (event_entities cs) ≡ true
unfolding watched member
watched-event_entities e [] h = h
watched-event_entities e (c ∷ cs) h = elim (Option-cases (mask_map c.event_type)) [
  | inl missing ↦ ground (arith, watched-event_entities e cs (rw (watched, missing) at h))
  | inr (kind, found) ↦ ground (arith, rw (watched, found) at h, watched-event_entities e cs)
]

member-add_entity :
    (e x : ℕ) (kinds : List StatusKind) (masks : Masks)
    → member e (keys (add_entity x kinds masks)) ≡ (e == x || member e (keys masks))
unfolding member add_entity
member-add_entity e x kinds [] = refl
member-add_entity e x kinds ((y, mask) ∷ masks) = ground (arith, member-add_entity e x kinds masks)

member-gather_masks :
    (e : ℕ) (cs : List CddsEvent) (masks masks' : Masks)
    → gather_masks cs masks ≡ some masks'
    → member e (keys masks') ≡ (member e (watched cs) || member e (keys masks))
unfolding gather_masks watched member add_event
member-gather_masks e [] masks masks' h = ground arith
member-gather_masks e (c ∷ cs) masks masks' h =
    let rest = member-gather_masks e cs (add_event c masks) masks' (ground arith) in
    rest ∙ elim (Option-cases (mask_map c.event_type)) [
      | inl missing ↦ rw (watched, add_event, missing) refl
      | inr (kind, found) ↦
          rw (watched, add_event, found, member-add_entity e c.enth (mask_of kind) masks)
            (ground arith)
    ]

-- Where the masks could be set, the entities are those that have one.
set_masks-keys :
    (d : Dds) (m : Objects) (masks : Masks) (s : d.State)
    → (set_masks d m masks s).0 ≡ ret_ok
    → (set_masks d m masks s).1 ≡ keys masks
unfolding set_masks
set_masks-keys d m [] s h = refl
set_masks-keys d m ((x, mask) ∷ masks) s h = elim (Option-cases (d.set_status_mask x mask s)) [
  | inl failed ↦ ground (arith, rw (set_masks, failed) at h)
  | inr (s', done) ↦
      rw (set_masks, done)
        (ap (λ es. x ∷ es) (set_masks-keys d m masks s' (rw (set_masks, done) at h)))
]

pub member-gather :
    (d : Dds) (m : Objects) (cs : List CddsEvent) (s : d.State) (e : ℕ)
    → (gather_event_entities d m cs s).0 ≡ ret_ok
    → member e (gather_event_entities d m cs s).1 ≡ member e (watched cs)
unfolding gather_event_entities member
member-gather d m cs s e h = elim (Option-cases (gather_masks cs [])) [
  | inl failed ↦ ground (arith, rw (gather_event_entities, failed) at h)
  | inr (masks, found) ↦
      rw
        (
          gather_event_entities,
          found,
          set_masks-keys d m masks s (rw (gather_event_entities, found) at h),
          member-gather_masks e cs [] masks found,
        )
        (ground arith)
]
