-- ===== src/Probes/Crops/Publish/Chain.antt =====
-- The messages of an object are linked to each other.
use vms_engine.Common.Map.{Map, find, insert, find-insert}
use vms_engine.Common.{
  ℕ, ◌+◌, ◌≡◌, refl, ap, ◌∙◌, Bool, false, not, ◌||◌, Option, none, some, List, [], ◌∷◌, Text,
  nat_eq, nat_beq_iff, ◌==◌, if◌then◌else◌, if_keep, Option-cases, inl, inr, arith,
}
use vms_engine.Probes.Crops.{PubDecisionType, ObjectPubState, compose_key}
use vms_engine.Probes.Crops.Publish.{
  CropObject, FrameProcessContext, CropSettings, CropMachine, Publisher, PendingMessage, Role,
  or_unpublished, generate_message_id,
}
use vms_engine.Probes.Crops.Publish.Object.{
  update_object_last_seen, get_or_create_object_key, parent_of, link_parent, link, note_published,
  encode_crop, encode_full_frame, publish_object,
}

-- The states of all objects.
abbrev states_of : Publisher → Map ℕ ObjectPubState
states_of p = p.objects.pub_state

module _ (machine : CropMachine) where
  get_or_create-states :
      (p : Publisher) (source_id tracker_id : ℕ)
      → states_of (get_or_create_object_key machine p source_id tracker_id).0 ≡ states_of p
  unfolding get_or_create_object_key
  get_or_create-states p source_id tracker_id =
      elim (Option-cases (find (compose_key source_id tracker_id) p.objects.object_keys)) [
        | inl e ↦ rw (states_of, e) refl
        | inr (k, e) ↦ rw (states_of, e) refl
      ]

  link_parent-states :
      (p : Publisher) (ctx : FrameProcessContext) (parent : Option ℕ)
      → states_of (link_parent machine p ctx parent).0 ≡ states_of p
  unfolding link_parent update_object_last_seen
  link_parent-states p ctx none = refl
  link_parent-states p ctx (some parent) =
      let r = get_or_create_object_key machine p ctx.source_id parent in
      elim (Option-cases (find parent r.0.inst_keys)) [
        | inl e ↦ rw (states_of, e) (get_or_create-states p ctx.source_id parent)
        | inr (k, e) ↦ rw (states_of, e) (get_or_create-states p ctx.source_id parent)
      ]

  link-states :
      (p : Publisher) (ctx : FrameProcessContext) (role : Role) (o : CropObject) (key : Text)
      → states_of (link machine p ctx role o key).0 ≡ states_of p
  unfolding link
  link-states p ctx role o key =
      if_keep (λ (r : Publisher × Text × Text × Text). states_of r.0 ≡ states_of p)
        role.is_parent_role _ _ refl
        (link_parent-states p ctx (parent_of role.parent_tid_hint o.parent))

  full_frame-states :
      (g : CropSettings) (p : Publisher) (ctx : FrameProcessContext)
      → states_of (encode_full_frame machine g p ctx).0 ≡ states_of p
  unfolding encode_full_frame
  full_frame-states g p ctx =
      if_keep (λ (r : Publisher × Text). states_of r.0 ≡ states_of p) (not g.save_full_frame) _ _
        refl
        (elim (Option-cases (find ctx.frame_num p.ff_paths)) [
          | inl e ↦
              rw e (if_keep (λ (r : Publisher × Text). states_of r.0 ≡ states_of p) _ _ _ refl refl)
          | inr (path, e) ↦ rw e refl
        ])

-- The arguments of one publication.
pub record Publication : Type 0 where
  pub ctx : FrameProcessContext
  pub role : Role
  pub object : CropObject
  pub decision : PubDecisionType
  pub labels : Text
  pub signature : Text

unfoldable pub publish :
    CropMachine → CropSettings → Publisher → Publication → Publisher × PendingMessage
publish machine g p a =
    publish_object machine g p a.ctx a.role a.object a.decision a.labels a.signature

abbrev pub key_of : Publication → ℕ
key_of a = compose_key a.ctx.source_id a.object.object_id

-- The last message of an object, or the empty id.
abbrev pub last_message : Publisher → ℕ → Text
last_message p key = (or_unpublished (find key p.objects.pub_state)).last_message_id

last-insert :
    (k j : ℕ) (s : ObjectPubState) (m : Map ℕ ObjectPubState)
    → (or_unpublished (find j (insert k s m))).last_message_id
      ≡ (if k == j then s.last_message_id else (or_unpublished (find j m)).last_message_id)
last-insert k j s m = ground (arith, find-insert k j s m)

-- With the time of the capture, before the parent is linked.
abbrev captured : CropMachine → Publisher → Publication → Publisher
captured machine p a = record p {
  uuids = p.uuids + 1;
  objects = record p.objects {
    last_capture_pts = insert (key_of a) a.ctx.frame_pts p.objects.last_capture_pts;
  };
}

module _ (machine : CropMachine) (g : CropSettings) where
  last-publish :
      (p : Publisher) (a : Publication) (key : ℕ)
      → last_message (publish machine g p a).0 key
        ≡ (if key_of a == key then (publish machine g p a).1.message_id else last_message p key)
  unfolding publish publish_object encode_crop note_published
  last-publish p a key =
      let keyed = get_or_create_object_key machine p a.ctx.source_id a.object.object_id in
      let p1 = captured machine keyed.0 a in
      let linked = link machine p1 a.ctx a.role a.object (machine.uuid keyed.0.uuids) in
      let same : states_of linked.0 ≡ states_of p =
        link-states machine p1 a.ctx a.role a.object (machine.uuid keyed.0.uuids)
        ∙ get_or_create-states machine p a.ctx.source_id a.object.object_id in
      ap (λ m. (or_unpublished (find key m)).last_message_id) (full_frame-states machine g _ a.ctx)
      ∙ last-insert (key_of a) key _ (states_of linked.0)
      ∙ ap
          (λ m.
            if key_of a == key
            then generate_message_id a.ctx.source_id a.ctx.frame_num a.ctx.timestamp_ms
            else (or_unpublished (find key m)).last_message_id)
          same

  prev-publish :
      (p : Publisher) (a : Publication)
      → (publish machine g p a).1.prev_message_id ≡ last_message p (key_of a)
  unfolding publish publish_object
  prev-publish p a =
      let keyed = get_or_create_object_key machine p a.ctx.source_id a.object.object_id in
      let same =
        link-states machine (captured machine keyed.0 a) a.ctx a.role a.object
          (machine.uuid keyed.0.uuids)
        ∙ get_or_create-states machine p a.ctx.source_id a.object.object_id in
      ap (λ m. (or_unpublished (find (key_of a) m)).last_message_id) same

-- Between two publications of an object any others may be made.
unfoldable pub publish_all : CropMachine → CropSettings → Publisher → List Publication → Publisher
publish_all machine g p [] = p
publish_all machine g p (a ∷ rest) = publish_all machine g (publish machine g p a).0 rest

unfoldable pub concerns : ℕ → List Publication → Bool
concerns key [] = false
concerns key (a ∷ rest) = key_of a == key || concerns key rest

last-publish_all :
    (machine : CropMachine) (g : CropSettings) (p : Publisher) (others : List Publication) (key : ℕ)
    → concerns key others ≡ false
    → last_message (publish_all machine g p others) key ≡ last_message p key
unfolding publish_all concerns
last-publish_all machine g p [] key h = refl
last-publish_all machine g p (a ∷ rest) key h =
    last-publish_all machine g (publish machine g p a).0 rest key (ground arith)
    ∙ last-publish machine g p a key
    ∙ ground arith

-- Two messages of an object with only messages of other objects between them are linked: the
-- second names the id of the first as the one before it.
pub prev-publish_all :
    (machine : CropMachine) (g : CropSettings) (p : Publisher) (a b : Publication)
    (others : List Publication)
    → key_of a ≡ key_of b
    → concerns (key_of b) others ≡ false
    → (publish machine g
        (publish_all machine g (publish machine g p a).0 others)
        b).1.prev_message_id
      ≡ (publish machine g p a).1.message_id
prev-publish_all machine g p a b others same apart =
    prev-publish machine g (publish_all machine g (publish machine g p a).0 others) b
    ∙ last-publish_all machine g (publish machine g p a).0 others (key_of b) apart
    ∙ last-publish machine g p a (key_of b)
    ∙ ground (arith, nat_beq_iff (key_of a) (key_of b))
