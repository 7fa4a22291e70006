-- ===== src/Lib.antt =====
-- Prompt Maker Studio: a model of the browser's own logic, with the theorems that make it correct.
--
-- A prompt is an ordered list of named sections whose text may hold {{variable}} tokens. The pages
-- render it, fill and highlight its variables, compare its versions word by word, keep it in a
-- library, edit it with a draft kept in the browser, and evaluate its results. Paths below stand
-- under frontend/src.
--
-- Scan: `matchAll`, `replace` and `split` of a regular expression, which is given as the function
--   that matches at the head of a text. The expressions of the program need no backtracking, so
--   that each is a few steps over the text.
-- Sections (lib/sections.ts): Chars and Names (normalizeSectionName, sectionTag, renderSections,
--   sectionNameError), Variables (VARIABLE, variablesIn, fillVariables, splitVariables,
--   insertVariable, toVariableName), Tags (unbalancedTags), Title (suggestTitle).
-- Diff (lib/diff.ts): tokenize and diffWords, with the table as a list of rows. Its children prove
--   what the tokens, the table, the walk and the merged runs are.
-- Evaluation (types/evaluation.ts, lib/evaluationStatus.ts, features/evaluation/useEvaluation.ts):
--   the status words, and the hook as a record. A handler is split where it waits: `start` runs to
--   the call of the server, `settle` goes on from the answer, so that a list of transitions is an
--   interleaving of buttons, answers and effects.
-- Library (features/library/useLibrary.ts): deleting with an undo window. `commitDelete` is a list
--   of commits under way, each with the prompts still to be sent; answers come in any order. Edits
--   are a favourite, a new name, a move and a copy; Moving is moveSelected, its loop of requests and
--   its Undo; Searching is what a view shows and the search box kept in the address; Matching
--   (libraryState.ts) is what a search finds in a prompt and the excerpt; Views
--   (lib/libraryViews.ts) are the addresses.
-- Import (lib/promptImport.ts): the CSV reader, a fold over the characters, and as children
--   SplitText, the cuts of a section that is too long; Json, the values that are inspected;
--   Items and Validate (validateImportPrompts, importProblem), whose failures are a sum; Naming
--   (sectionName, splitLongSections); Markdown (the loop of parsePromptImport over lines);
--   Placeholders and Conversion (placeholdersIn, convertPlaceholders, reapplyConversions). Its
--   child Dialog (features/library/ImportPrompts.tsx) is which rows of the preview are sent, and
--   Run the handler importPrompts, with what the server replies as a parameter.
-- Session (lib/auth.ts): refreshing and ending a session. Promises are the numbers of their
--   requests; a request and its answer are two transitions, so that a chain of them is an
--   interleaving. Its child Storage (lib/branding.ts) is what the browser keeps under the app's name,
--   and Hook (features/auth/useSession.ts) what the pages show of the session.
-- Api: how a call of the server fails (the errors that lib/api throws), shared by the hooks.
-- Editor (features/editor): Metadata and Drafts (editorState.ts, useDraftPersistence.ts:
--   snapshot, choiceList, readDraft, the draft that follows each change), Names (uniqueName),
--   and the hook usePromptEditor.ts: State, Actions (what calls no server, and the button of
--   PromptEditor.tsx that undoes an import or a refinement), Requests
--   (mutationChain, patch, save, rename, move, mark, restore), Creating (createPrompt), Choices
--   (after a conflict) and Reloading (the effects that load a prompt or take up a draft).
--   Requests/Events is one editor, its queue and a server; the server is an interface with a
--   law, which Requests/Conflicts takes as a parameter.
-- Settings (features/settings/useSettings.ts, features/auth/usernamePolicy.ts): the page's state and
--   handlers; saves of the library view carry their sequence number.
--
-- Text is a list of UTF-16 code units. `toUpperCase` and `toLowerCase` are parameters, since the
-- Unicode tables are not part of the program. A score is a number of thousandths of a point. Ids
-- and version numbers are natural numbers; a difference of counts is an integer, with the sign that
-- JavaScript gives it. The server, timers and the browser are events, each with
-- any answer. Loops are recursion on a list, and the scan of a text counts down the characters
-- that the last match has covered. The loop of splitText and the matches of the placeholders have
-- fuel, the length of the text, which is enough because every round goes on by a character at least.
--
-- An object such as the settings of variables is the list of its entries; a snapshot is the value
-- whose JSON text the program compares. The number in a new section's name is searched with as much
-- fuel as there are sections, and one more, which is enough since each number tried is another name;
-- so is the number that sectionName adds to a name that is taken.
--
-- Not modelled: the markup and styles of the pages, the backend (another language), the wrappers
-- around fetch, static data (gallery, guides, legal texts), the frontmatter and tidying of
-- notes, archives, the files chosen in the import dialog, the hints of lib/promptLint.ts, the lists of
-- folders and the AI configuration of the editor, and the texts of messages, which are
-- constructors where the code tells them apart.
pub mod Base
pub mod Api
pub mod Scan
pub mod Sections
pub mod Diff
pub mod Evaluation
pub mod Editor
pub mod Settings
pub mod Import
pub mod Session
pub mod Library
