-- ===== src/Tools/Catalog/Prompt.antt =====
-- The prompt that lists the tools (src/tools/catalog.rs). The order of `list_entries` is given
-- by an argument.
use Prim.Native.String.{◌++◌}
use jeeves_core.Prelude.{String, Option, none, some, List, [], ◌∷◌, map, if◌then◌else◌}
use jeeves_core.Types.{ToolName}
use jeeves_core.Tools.Catalog.{
  ParamType, string, int, float, bool, string_list, enum, optional, ParamDef, is_required,
  ToolEntry, ToolCatalog, get, list_entries,
}

-- `join` on texts.
unfoldable pub join_text : String → List String → String
join_text sep [] = ""
join_text sep (x ∷ []) = x
join_text sep (x ∷ y ∷ xs) = x ++ sep ++ join_text sep (y ∷ xs)

unfoldable pub display_name : ParamType → String
unfolding join_text
display_name string = "string"
display_name int = "integer"
display_name float = "number"
display_name bool = "boolean"
display_name string_list = "string[]"
display_name (enum variants) = "enum(" ++ join_text "|" variants ++ ")"
display_name (optional inner) = display_name inner ++ "?"

unfoldable pub param_text : ParamDef → String
unfolding display_name
param_text p = p.name ++ (if is_required p then "" else "?") ++ ": " ++ display_name p.param_type

unfoldable pub to_prompt_line : ToolEntry → String
unfolding param_text
to_prompt_line e =
    "- " ++ e.id ++ "(" ++ join_text ", " (map param_text e.parameters) ++ "): " ++ e.description

-- `filter_map` of the allowed names by their entries.
unfoldable pub known_entries : List ToolName → ToolCatalog → List ToolEntry
known_entries [] c = []
known_entries (id ∷ ids) c =
    let rest = known_entries ids c in elim (get id c) [ none ↦ rest | some e ↦ e ∷ rest ]

unfoldable pub generate_prompt :
    (List ToolEntry → List ToolEntry) → Option (List ToolName) → ToolCatalog → String
unfolding to_prompt_line known_entries list_entries
generate_prompt sort allowed_tools c =
    let entries : List ToolEntry = elim allowed_tools [
      | none ↦ list_entries sort c
      | some allowed ↦ known_entries allowed c
    ] in
    elim entries [
      | [] ↦ ""
      | e ∷ es ↦ join_text "\n" ("Available tools:" ∷ map to_prompt_line (e ∷ es))
    ]
