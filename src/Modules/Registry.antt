-- ===== src/Modules/Registry.antt =====
-- `ModuleCatalog` of internal/domain/module.go: the modules that the program ships.
pub mod Browser
pub mod Data
pub mod Personal
use agent_workspace.Prelude.{Bool, true, false, List, [], ◌∷◌, Text, codes}
use agent_workspace.Modules.Catalog.{ModuleSpec}
use agent_workspace.Modules.Registry.Browser.{browser_module_prompt, browser_module_actions}
use agent_workspace.Modules.Registry.Data.{
  mcp_client_prompt, mcp_client_actions, notes_prompt, notes_actions,
}
use agent_workspace.Modules.Registry.Personal.{
  tasks_prompt, tasks_actions, passwords_prompt, passwords_actions, obsidian_prompt,
  obsidian_actions,
}

abbrev pub browser_module_chrome : Text
browser_module_chrome = codes "browser-chrome"

abbrev pub browser_module_edge : Text
browser_module_edge = codes "browser-edge"

abbrev pub module_catalog : List ModuleSpec
module_catalog =
    record {
      id = codes "chat";
      name = codes "Chat";
      icon = codes "chat";
      description = codes "Chat with the agent. Supports markdown, code blocks and streaming.";
      actions = [];
      prompt = [];
      core = true;
      fixed = false;
      coming_soon = false;
    }
    ∷ record {
      id = codes "skills";
      name = codes "Skills";
      icon = codes "extension";
      description = codes "Browse, create and manage the procedural skills the agent can load.";
      actions = [];
      prompt = [];
      core = false;
      fixed = true;
      coming_soon = false;
    }
    ∷ record {
      id = codes "mcp-client";
      name = codes "MCP Client";
      icon = codes "mcp";
      description = codes "Connect Agent Workspace to external MCP tools and data sources.";
      actions = mcp_client_actions;
      prompt = mcp_client_prompt;
      core = false;
      fixed = false;
      coming_soon = false;
    }
    ∷ record {
      id = codes "notes";
      name = codes "Notes";
      icon = codes "note";
      description = codes "Personal notes the agent can read and write.";
      actions = notes_actions;
      prompt = notes_prompt;
      core = false;
      fixed = false;
      coming_soon = false;
    }
    ∷ record {
      id = codes "tasks";
      name = codes "Tasks";
      icon = codes "checklist";
      description = codes "A simple task list you and the agent share.";
      actions = tasks_actions;
      prompt = tasks_prompt;
      core = false;
      fixed = false;
      coming_soon = false;
    }
    ∷ record {
      id = codes "passwords";
      name = codes "Passwords";
      icon = codes "key";
      description = codes "Encrypted credentials the user shares with the agent.";
      actions = passwords_actions;
      prompt = passwords_prompt;
      core = false;
      fixed = false;
      coming_soon = false;
    }
    ∷ record {
      id = codes "obsidian";
      name = codes "Obsidian";
      icon = codes "book_4";
      description = codes "Read and update the user's Obsidian vault.";
      actions = obsidian_actions;
      prompt = obsidian_prompt;
      core = false;
      fixed = false;
      coming_soon = false;
    }
    ∷ record {
      id = browser_module_chrome;
      name = codes "Google Chrome";
      icon = codes "public";
      description = codes "Allow the Agent to control the Google Chrome browser.";
      actions = browser_module_actions;
      prompt = browser_module_prompt;
      core = false;
      fixed = false;
      coming_soon = false;
    }
    ∷ record {
      id = browser_module_edge;
      name = codes "Microsoft Edge";
      icon = codes "language";
      description = codes "Allow the Agent to control the Microsoft Edge browser.";
      actions = browser_module_actions;
      prompt = browser_module_prompt;
      core = false;
      fixed = false;
      coming_soon = false;
    }
    ∷ record {
      id = codes "mcp-server";
      name = codes "MCP Server";
      icon = codes "mcp";
      description = codes "Expose this app to external agents over MCP.";
      actions = [];
      prompt = [];
      core = false;
      fixed = true;
      coming_soon = false;
    }
    ∷ record {
      id = codes "rest-server";
      name = codes "REST API Server";
      icon = codes "http";
      description = codes "Expose this app to external agents over REST API.";
      actions = [];
      prompt = [];
      core = false;
      fixed = true;
      coming_soon = false;
    }
    ∷ record {
      id = codes "web-server";
      name = codes "Web Access";
      icon = codes "public";
      description = codes "Open the full app in a remote browser over Tailscale.";
      actions = [];
      prompt = [];
      core = false;
      fixed = true;
      coming_soon = false;
    }
    ∷ record {
      id = codes "settings";
      name = codes "Settings";
      icon = codes "settings";
      description = codes "Configure providers, theme, security, memory and app behavior.";
      actions = [];
      prompt = [];
      core = false;
      fixed = true;
      coming_soon = false;
    }
    ∷ []
