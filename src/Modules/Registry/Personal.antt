-- ===== src/Modules/Registry/Personal.antt =====
-- internal/domain/module.go: the prompts and actions of the modules tasks, passwords, obsidian.
use agent_workspace.Prelude.{List, [], ◌∷◌, ◌++◌, Text, codes}
use agent_workspace.Modules.Catalog.{ModuleAction}

abbrev pub tasks_prompt : Text
tasks_prompt =
    codes "Tasks tracks actionable items, ordered by position. Status is open, "
    ++ codes "in-progress, needs-validation or completed. Each item has a title and an "
    ++ codes "optional body (long description / spec) — when asked to write a spec for an "
    ++ codes "item, put it in the body via tasks.update. Items can carry image attachments; "
    ++ codes "tasks.get returns their names and sizes (never the binary content). Add items "
    ++ codes "the user wants to do later, move the status forward as work progresses, and "
    ++ codes "consult the tasks when the user asks what is pending."

abbrev pub tasks_actions : List ModuleAction
tasks_actions =
    record {
      name = codes "tasks.list";
      args = codes "{}";
      summary = codes "List the tasks in order (title, body, status, attachment metadata).";
    }
    ∷ record {
      name = codes "tasks.get";
      args = codes "{id}";
      summary = codes "Read one item in full, including attachment names/sizes.";
    }
    ∷ record {
      name = codes "tasks.add";
      args = codes "{title, body?, status?}";
      summary = codes "Add an item at the end (status defaults to open).";
    }
    ∷ record {
      name = codes "tasks.update";
      args = codes "{id, title?, body?, status?, position?}";
      summary = codes "Change an item; status is open|in-progress|needs-validation|completed.";
    }
    ∷ record {
      name = codes "tasks.delete";
      args = codes "{id}";
      summary = codes "Delete an item and its attachments (the result echoes what was deleted).";
    }
    ∷ []

abbrev pub passwords_prompt : Text
passwords_prompt =
    codes "Passwords holds credentials the user stored TO SHARE WITH YOU (their private "
    ++ codes "ones live elsewhere). passwords.list shows what exists (metadata only). "
    ++ codes "passwords.get reveals one credential's value — call it only at the moment of "
    ++ codes "use, never proactively, and never echo a password into chat text, notes, "
    ++ codes "files or logs unless the user explicitly asks to see it. Reveals are re-gated "
    ++ codes "on turns tainted by external content."

abbrev pub passwords_actions : List ModuleAction
passwords_actions =
    record {
      name = codes "passwords.list";
      args = codes "{}";
      summary = codes "List stored credentials (name, username, URL — never values).";
    }
    ∷ record {
      name = codes "passwords.get";
      args = codes "{ \"id\": \"<id or exact name>\" }";
      summary = codes "Read one credential including its password value (taint-gated).";
    }
    ∷ []

abbrev pub obsidian_prompt : Text
obsidian_prompt =
    codes "Obsidian gives you the user's Obsidian vault (a folder of Markdown notes). "
    ++ codes "Every path is relative to the vault folder and stays inside it. Use "
    ++ codes "obsidian.search to locate notes by name or content, obsidian.read for full "
    ++ codes "text, and — only when the user enabled writing in the module — "
    ++ codes "obsidian.write/obsidian.append to create or update notes, and — only when the "
    ++ codes "user separately enabled deletion — obsidian.delete to remove a note or "
    ++ codes "folder. Never touch the .obsidian configuration folder."

abbrev pub obsidian_actions : List ModuleAction
obsidian_actions =
    record {
      name = codes "obsidian.list";
      args = codes "{folder?}";
      summary = codes "List notes and folders (relative paths, .obsidian excluded).";
    }
    ∷ record {
      name = codes "obsidian.search";
      args = codes "{query, max?}";
      summary = codes "Search note names and contents; returns matches with a snippet.";
    }
    ∷ record {
      name = codes "obsidian.read";
      args = codes "{path}";
      summary = codes "Read one note in full (capped; [truncated] marks cuts).";
    }
    ∷ record {
      name = codes "obsidian.write";
      args = codes "{path, content}";
      summary = codes "Create or overwrite a note (requires Create/Update enabled in the module).";
    }
    ∷ record {
      name = codes "obsidian.append";
      args = codes "{path, content}";
      summary = codes "Append to a note, creating it if absent (requires Create/Update enabled).";
    }
    ∷ record {
      name = codes "obsidian.delete";
      args = codes "{path}";
      summary = codes "Delete a note or folder inside the vault (requires Delete enabled).";
    }
    ∷ []
