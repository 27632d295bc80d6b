-- ===== src/MessageTree/Tests.antt =====
-- The theorems on the tree at a question with two answers.
use gpt.Prelude.{
  ℕ, ◌≤◌, String, ◌≡◌, refl, Option, none, some, [], ◌∷◌, here, Dict, lookup, insert, sort_by,
}
use gpt.Types.{Message, user}
use gpt.MessageTree.{
  build_child_map, find_newest_leaf, add_child, add_children, sort_children, has_child,
}
use gpt.MessageTree.Loop.{root, child}
use gpt.MessageTree.Maximal.{find_newest_leaf-maximal}

abbrev message : String → Option String → ℕ → Message
message id parent time = record {
  id = id;
  backend_id = none;
  chat_id = "c";
  role = user;
  content = "";
  parent_message_id = parent;
  created_at = time;
  updated_at = time;
  error_status = none;
  is_complete = none;
  job_id = none;
  model_id = none;
  attachments = none;
  tool_calls = none;
  tool_results = none;
  tool_call_id = none;
  requires_client_action = none;
  usage = none;
}

abbrev tree : Dict Message
tree =
    ("q", message "q" none 1)
    ∷ ("b", message "b" (some "q") 3)
    ∷ ("a", message "a" (some "q") 2)
    ∷ []

abbrev later : Message
later = message "b" (some "q") 3

find_newest_leaf-maximal_example :
    (leaf_id : String) × (leaf : Message) × (find_newest_leaf tree "q" ≡ some leaf_id)
    × (lookup leaf_id tree ≡ some leaf)
    × (2 ≤ leaf.created_at)
unfolding build_child_map add_children add_child sort_children has_child sort_by lookup insert
find_newest_leaf-maximal_example =
    find_newest_leaf-maximal tree "q" "a" (message "q" none 1) (message "a" (some "q") 2) refl
      (child {id = "q"} {m = message "a" (some "q") 2} root here) (refl, refl, refl)
