-- ===== src/Lib.antt =====
-- reqlet's web client: its model and what is proved of it.
--
-- reqlet is an API client. Its web client (gui/web) keeps collections of requests, environments and
-- open tabs in stores; the components of the page call the stores' actions, and the server keeps what
-- the stores hold. The parts that are modelled here work together as follows. The workspace store
-- owns the trees of folders and requests and all variables. The tab store shows one item of the
-- workspace per tab. The variable scope takes the variables of the workspace that a request sees,
-- resolves the references between them and replaces them in the texts of the request; the inputs show
-- the references in colour with the tokens of a text and offer their names. The request pane edits the
-- request of the active tab, sends it to the server with the variables in scope, and puts the answer
-- into the tab. The collection pane starts runs of a collection, whose events arrive on a stream and
-- are kept in the run store.
--
-- Files, by the code that they model:
--   Types         gui/web/src/types.ts. Interfaces are records; an optional field is an Option; a
--                 union of literals is a data type. `CollectionItem[]` is `Items`, a list of requests
--                 and folders with the items of a folder beside it.
--   Workspace     gui/web/src/store/workspace.ts. `Workspace.Tree` has the functions on trees
--                 (findRequestInItems to insertIntoList), `Workspace.Store` the state and the
--                 actions on collections, `Workspace.Variables` the actions on environments and
--                 variables. Each action is a function from state to state, of the same name in snake
--                 case; one that returns a value returns the pair of it and the state.
--                 `Workspace.Steps` has runs of all actions in any order.
--   Tabs          gui/web/src/store/tabs.ts. `Tabs.State` has the state and the actions that open
--                 tabs, `Tabs.Actions` the others and what is persisted, `Tabs.Steps` the runs.
--   Scope         gui/web/src/hooks/use-variable-scope.ts (applyVariables, resolveRecursive,
--                 useVariableScope) and tokenizeVariables of
--                 gui/web/src/components/ui/variable-input.tsx. `Scope.Template` reads a text as the
--                 matches of the regular expression, `Scope.Resolve` resolves references with the
--                 memo passed on, `Scope.Merge` collects the variables in scope.
--   Runs, Ui      gui/web/src/store/runs.ts, ui.ts and settings.ts: the state of collection runs, of
--                 the panels, and the settings.
--   Sync          gui/web/src/hooks/use-workspace-sync.ts: the calls that bring the server up to date,
--                 and in `Sync.Session` the loading of the lists and the subscription.
--   Backend, Api  gui/web/src/lib/backend.ts and api.ts. Each function of the client takes what `fetch`
--                 answers; a thrown error is `throws`. `Api.Files` has the imports and exports.
--   Send          `handleSend` of gui/web/src/components/layout/request-pane.tsx. `Send.Request` builds
--                 what is sent, `start_send` is the part before the answer and `finish_send` the part
--                 after it, so that anything may happen to the stores in between.
--   Fields        the edits of the same file: handleKVChange, handleKVDelete, handleKVAdd, the URL, the
--                 method, the path variables (`Fields.PathVariables`), the body and the settings
--                 (`Fields.Body`), and the rows of the tables (`Fields.FormRow`).
--   Mutations     `patchVarList` and `applyVariableMutations` of the same file: what scripts set.
--   Query         `parseQueryParams` and `buildUrlWithParams` of the same file.
--   Runs.Stream   `api.runs.stream` of lib/api.ts: the arrivals on a stream and the actions on the store.
--   Runs.Pane     `handleRun` of gui/web/src/components/layout/collection-pane.tsx: the start of a run
--                 and the streams that it opened, each with its arrivals. `Runs.View` has the runs that it lists and shows.
--   CollectionPane  what the same file shows of the active tab, and its editors.
--   VariablePanes  the rows of variables there and in gui/web/src/components/layout/environment-pane.tsx
--                 and globals-pane.tsx.
--   Rows          `buildRows` of collection-pane.tsx.
--   TabBar        gui/web/src/components/layout/tab-bar.tsx: closing with its confirmation, and dragging.
--   SidePanel     gui/web/src/components/layout/side-panel.tsx: renaming and adding, dragging
--                 (`SidePanel.Drag`), and the history (`SidePanel.History`), whose query is a
--                 parameter: an event says that its data have changed.
--   AuthPanel     gui/web/src/components/layout/auth-panel.tsx: the change handlers of its fields and
--                 of its selects (`AuthPanel.Selects`).
--   SettingsDialog  gui/web/src/components/layout/settings-dialog.tsx: the form and its saving.
--   Response      gui/web/src/components/layout/response-pane.tsx: what is shown of a tab, the names of
--                 downloads and languages, and the cookies (`Response.Cookies`).
--   Completion    gui/web/src/components/ui/variable-input.tsx: the list of completions.
--   CodeEditor    gui/web/src/components/ui/code-editor.tsx: the completions in the editor.
--   Ui.Width, Orphans  the drag of the side panel's edge and `useOrphanTabCleanup` of
--                 gui/web/src/components/layout/app-layout.tsx.
--   Search        gui/web/src/components/search-modal.tsx: `collectResults`, and `handleSelect` in
--                 `Search.Select`.
--   CodeGen       gui/web/src/components/code-gen-dialog.tsx: the snippets for curl, JavaScript,
--                 Python and Go.
--   HeaderBar     gui/web/src/components/layout/header-bar.tsx, icon-rail.tsx and status-bar.tsx.
--   Http          `getStatusClasses` and `formatSize` of gui/web/src/lib/http.ts.
--   Hooks         gui/web/src/hooks: use-theme.ts, use-delete-confirm.tsx, use-keyboard-shortcut.ts.
--   Tests         runs at concrete inputs.
--   Common        names that the modules share, and lemmas on lists, texts and dictionaries.
--
-- Conventions and parameters:
--   - `crypto.randomUUID` is a parameter: `uuid n` is the result of the n-th call of an action. What
--     a theorem needs of it, that the drawn ids are new, is a hypothesis.
--   - `fetch`, the arrivals of an event source, `toLowerCase` and the clock are parameters. An answer of
--     `fetch` is a failure of the connection, or a status with a body that is JSON of the expected
--     type or not.
--   - A `Map`, a `Record` and a `Set` are lists in insertion order. A JavaScript error is `none`.
--   - A falsy text is the empty one; null and undefined are both `none`.
--   - A text is compared by its code points.
--
-- Bounds and fuel: `resolve_value` runs on fuel, one unit per nested call. A nested call visits a key
-- of the map that was not visited, so as many units as the map has entries are enough. `decimal` runs
-- on as much fuel as the number is large, and each digit divides it by ten. Every other loop is
-- recursion on the structure it walks.
--
-- Not modelled: what the components only draw, `formatTime`, which rounds in floating point, the
-- widgets that are copies of a library (components/ui), the generated typings of the script editor
-- (lib/pm-types.ts), and the Go programs (engine, agent, cli), which are another implementation with
-- their own tests.
pub mod Common
pub mod Types
pub mod Workspace
pub mod Tabs
pub mod Completion
pub mod Fields
pub mod Send
pub mod Scope
pub mod Hooks
pub mod Response
pub mod Runs
pub mod Ui
pub mod Sync
pub mod Mutations
pub mod Query
pub mod Orphans
pub mod Search
pub mod Api
pub mod AuthPanel
pub mod Backend
pub mod CodeGen
pub mod Rows
pub mod TabBar
pub mod SidePanel
pub mod SettingsDialog
pub mod VariablePanes
pub mod CodeEditor
pub mod HeaderBar
pub mod Http
pub mod CollectionPane
pub mod Tests
