-- ===== src/ChatStore/Tests/Setters.antt =====
-- The theorems on the setters: a tool, three files and a change of the chat.
use gpt.Prelude.{some, [], ◌∷◌}
use gpt.Types.{Tool, Attachment, image}
use gpt.ChatStore.State.{World, clear_attachments}
use gpt.ChatStore.Tests.{store, world}

abbrev search : Tool
search = record { name = "search"; description = "Search the files"; parameters = "{}" }

abbrev picture : Attachment
picture = record {
  id = "";
  name = "cat.png";
  size = 9;
  type = image;
  last_modified = 1;
  preview_url = some "blob:1";
}

abbrev clearing : World
clearing = record world {
  store = record store { attachments = picture ∷ []; attachment_cleanup_timer = some 1 };
  timers = clear_attachments 1 250 ∷ [];
  next_handle = 2;
}
