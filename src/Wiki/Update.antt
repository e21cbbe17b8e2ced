-- ===== src/Wiki/Update.antt =====
-- `_run_wiki_update_in_process` of libs/copilot/orchestrator.py: an article for each chosen module.
-- The generator is a parameter, which may raise; a failed write of its article counts as one too.
-- The index that is written at the end, and the files, symbols and relations read from the cache,
-- are outside: the latter are given.
use Prim.Native.String
use lv_dcp.Base.{
  ℕ, ◌+◌, String, ◌==◌, Bool, not, ◌&&◌, ◌||◌, Option, none, some, List, [], ◌∷◌, ◌++◌, map, keep,
  length, take, Dict, get, put, contains, sorted, starts_with, split_on, if◌then◌else◌,
}
use lv_dcp.Timeline.Reconcile.{distinct}
use lv_dcp.Refresh.Runner.{Call}
use lv_dcp.Wiki.{
  WikiRow, get_all_modules, get_dirty_modules, wiki_filename, mark_current, module_of_parts,
}

pub record Symbol : Type 0 where
  pub file_path : String
  pub fq_name : String

pub record Relation : Type 0 where
  pub src_ref : String
  pub dst_ref : String

-- What the cache holds, by the paths of the files.
pub record Cache : Type 0 where
  pub files : List String
  pub symbols : List Symbol
  pub relations : List Relation

-- The arguments of `generate_wiki_article`, but for the project.
pub record Request : Type 0 where
  pub module_path : String
  pub file_list : List String
  pub symbols : List String
  pub deps : List String
  pub dependents : List String
  pub existing_article : String

-- An article, or the text of the exception.
pub data Article : Type 0 where
  article : String → Article
  raised : String → Article

unfoldable pub module_files : String → List String → List String
unfolding starts_with
module_files module_path =
    keep (λ fp. starts_with (String.◌++◌ module_path "/") fp || fp == module_path)

unfoldable pub module_of_ref : String → String
unfolding split_on
module_of_ref ref = module_of_parts (split_on b'/' ref)

abbrev pub is_dep : List String → Relation → Bool
is_dep mod_files r = contains r.src_ref mod_files && not (contains r.dst_ref mod_files)

abbrev pub is_dependent : List String → Relation → Bool
is_dependent mod_files r = contains r.dst_ref mod_files && not (contains r.src_ref mod_files)

abbrev pub text_or_empty : Option String → String
text_or_empty none = ""
text_or_empty (some text) = text

unfoldable pub request_of : Cache → String → Dict String → Request
request_of cache module_path articles =
    let mod_files = module_files module_path cache.files in
    record {
      module_path = module_path;
      file_list = mod_files;
      symbols =
          take 20 (map (λ s. s.fq_name) (keep (λ s. contains s.file_path mod_files) cache.symbols));
      deps =
          sorted (
            distinct
              (map (λ r. module_of_ref r.dst_ref) (keep (is_dep mod_files) cache.relations)));
      dependents = sorted (
          distinct
            (map (λ r. module_of_ref r.src_ref) (keep (is_dependent mod_files) cache.relations)));
      existing_article = text_or_empty (get (wiki_filename module_path) articles);
    }

-- The state of the loop; `clock` gives the time at each of its rounds.
pub record Wiki : Type 0 where
  pub rows : List WikiRow
  pub articles : Dict String
  pub updated : ℕ
  pub messages : List String
  pub calls : List Call

unfoldable pub skip_message : String → String → String
skip_message module_path exc =
    String.◌++◌ "wiki: " (String.◌++◌ module_path (String.◌++◌ " skipped — " exc))

-- What follows the call of the generator.
abbrev pub settle : ℕ → WikiRow → Article → Wiki → Wiki
settle now row (article text) wiki =
    let wiki_file = wiki_filename row.module_path in
    record wiki {
      rows = mark_current row.module_path wiki_file row.source_hash now wiki.rows;
      articles = put wiki_file text wiki.articles;
      updated = wiki.updated + 1;
    }
settle now row (raised exc) wiki = record wiki {
  messages = wiki.messages ++ (skip_message row.module_path exc ∷ []);
}

abbrev pub tell : ℕ → ℕ → Option String → Wiki → Wiki
tell done total current wiki = record wiki {
  calls = wiki.calls ++ (record { done = done; total = total; current = current } ∷ []);
}

module _ (generate : Request → Article) (cache : Cache) (clock : ℕ → ℕ) (total : ℕ) where
  -- The body of the loop.
  abbrev pub update_one : ℕ → WikiRow → Wiki → Wiki
  update_one idx row wiki =
      settle (clock idx) row (generate (request_of cache row.module_path wiki.articles))
        (tell idx total (some row.module_path) wiki)

  unfoldable pub update_each : ℕ → List WikiRow → Wiki → Wiki
  update_each idx [] wiki = wiki
  update_each idx (row ∷ rest) wiki = update_each (idx + 1) rest (update_one idx row wiki)

unfoldable pub chosen : Bool → List WikiRow → List WikiRow
chosen all_modules rows = if all_modules then get_all_modules rows else get_dirty_modules rows

-- The rows and the articles before.
abbrev pub wiki_of : List WikiRow → Dict String → Wiki
wiki_of rows articles = record {
  rows = rows;
  articles = articles;
  updated = 0;
  messages = [];
  calls = [];
}

-- The branch on `if not modules`. The last message is the caller's to format, from `updated`.
abbrev pub update_chosen : (Request → Article) → Cache → (ℕ → ℕ) → List WikiRow → Wiki → Wiki
update_chosen generate cache clock [] wiki =
    tell 0 0 none (record wiki { messages = "wiki: no modules to update" ∷ [] })
update_chosen generate cache clock (row ∷ rest) wiki =
    let total = length (row ∷ rest) in
    tell total total none (update_each generate cache clock total 0 (row ∷ rest) wiki)

unfoldable pub run_wiki_update :
    (Request → Article) → Cache → (ℕ → ℕ) → Bool → List WikiRow → Dict String → Wiki
run_wiki_update generate cache clock all_modules rows articles =
    update_chosen generate cache clock (chosen all_modules rows) (wiki_of rows articles)
