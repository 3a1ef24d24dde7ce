-- ===== src/Tasks/Tests.antt =====
-- A store that is the list of its attachments, and an instance of the theorem there.
use agent_workspace.Prelude.{
  ℕ, ◌+◌, ◌≡◌, ◌≤◌, refl, arith, Bool, true, not, List, [], ◌∷◌, Text, codes, text_eq, keep, length,
  ok, err, if◌then◌else◌, pos,
}
use agent_workspace.Tasks.{TasksStore, TasksItem, TasksAttachment}
use agent_workspace.Tasks.Attachments.{attached, TasksStoreLaws, TasksCall, attach, calls}
use agent_workspace.Tasks.Cap.{attached-calls}

abbrev same_rune : ℕ → ℕ
same_rune c = c

abbrev item : TasksItem
item = record {
  id = codes "t1";
  title = codes "fix";
  body = [];
  status = codes "open";
  position = pos 0;
  created_at = [];
  attachments = [];
}

abbrev attachment_of : Text → Text → Text → List ℕ → TasksAttachment
attachment_of id name mime bytes = record {
  id = name;
  item_id = id;
  name = name;
  mime_type = mime;
  size = length bytes;
  created_at = [];
}

abbrev of_item : Text → List TasksAttachment → List TasksAttachment
of_item id = keep (λ a. text_eq id (TasksAttachment.item_id a))

abbrev store : TasksStore (List TasksAttachment)
store = record {
  is_unlocked = λ s. true;
  create_item = λ title body status s. (ok item, s);
  list_items = λ s. ok (item ∷ []);
  get_item = λ id s. ok item;
  update_item = λ id title body status position s. (ok item, s);
  delete_item = λ id s. (ok tt, keep (λ a. not (text_eq id (TasksAttachment.item_id a))) s);
  add_attachment = λ id name mime bytes s.
      (ok (attachment_of id name mime bytes), attachment_of id name mime bytes ∷ s);
  list_attachments = λ id s. ok (of_item id s);
  get_attachment = λ id s. err (codes "not found");
  delete_attachment = λ id s. (ok tt, keep (λ a. not (text_eq id (TasksAttachment.id a))) s);
}

fewer :
    (p q : TasksAttachment → Bool) (s : List TasksAttachment)
    → length (keep p (keep q s)) ≤ length (keep p s)
unfolding keep
fewer p q [] = omega arith
fewer p q (a ∷ s) = ground (arith, fewer p q s)

one_more :
    (id name mime : Text) (bytes : List ℕ) (j : Text) (s : List TasksAttachment)
    → length (of_item j (attachment_of id name mime bytes ∷ s))
      ≤ length (of_item j s) + (if text_eq j id then 1 else 0)
unfolding keep
one_more id name mime bytes j s = ground arith

store_laws : TasksStoreLaws (List TasksAttachment) store
store_laws = record {
  add_adds = one_more;
  create_keeps = λ title body status id s. omega arith;
  update_keeps = λ id title body status position j s. omega arith;
  delete_keeps = λ id j s.
      fewer (λ a. text_eq j (TasksAttachment.item_id a))
        (λ a. not (text_eq id (TasksAttachment.item_id a))) s;
  remove_keeps = λ id j s.
      fewer (λ a. text_eq j (TasksAttachment.item_id a))
        (λ a. not (text_eq id (TasksAttachment.id a))) s;
}

abbrev one_image : TasksCall
one_image = attach (codes " t1") (codes "shot") (codes "Image/PNG ") (1 ∷ [])

abbrev six_images : List TasksCall
six_images = one_image ∷ one_image ∷ one_image ∷ one_image ∷ one_image ∷ one_image ∷ []

-- The sixth image of an item is refused.
attach_run : attached store (codes "t1") (calls store same_rune six_images []) ≡ 5
unfolding calls keep
attach_run = refl

empty_capped : (id : Text) → attached store id [] ≤ 5
unfolding keep
empty_capped id = omega arith

attached-calls_example : attached store (codes "t1") (calls store same_rune six_images []) ≤ 5
attached-calls_example =
    attached-calls store same_rune store_laws six_images [] empty_capped (codes "t1")
