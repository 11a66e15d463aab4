-- ===== src/ToolFormat/Probe.antt =====
-- tool_format.rs: what a chat template can be told, by rendering transcripts of sentinels. The
-- renderer is a parameter: it takes a template, the messages and the tools.
use rampipe.Common.{
  Bool, false, not, ◌&&◌, List, [], ◌∷◌, ◌++◌, Option, none, some, take, ltb, ◌==◌,
}
use rampipe.Common.Chain.{◌>>=◌}
use rampipe.Common.Text.{Text, codes, text_eq, find, contains}
use rampipe.ToolFormat.Value.{Json, Items, Fields, nil, cons, end, field, string, array, object}
use Prim.Native.String.{String}

-- A sentinel: a word between two characters of the private use area.
abbrev pub sentinel : String → Text
sentinel word = 0xe000 ∷ (codes word ++ 0xe001 ∷ [])

abbrev pub name_probe : Text
name_probe = sentinel "TFNAME"

abbrev pub arg1 : Text
arg1 = sentinel "TFARGA"

abbrev pub val1 : Text
val1 = sentinel "TFVALA"

abbrev pub arg2 : Text
arg2 = sentinel "TFARGB"

abbrev pub val2 : Text
val2 = sentinel "TFVALB"

abbrev pub plain_probe : Text
plain_probe = sentinel "TFPLAIN"

abbrev pub user_probe : Text
user_probe = sentinel "TFUSER"

abbrev pub result_probe : Text
result_probe = sentinel "TFRESULT"

abbrev pub reply_probe : Text
reply_probe = sentinel "TFREPLY"

abbrev pub result2_probe : Text
result2_probe = sentinel "TFRESULTB"

-- `protocol::ToolFunction` and `protocol::ToolSpec`.
pub record ToolFunction : Type 0 where
  pub name : Text
  pub description : Text
  pub parameters : Json

pub record ToolSpec : Type 0 where
  pub kind : Text
  pub function : ToolFunction

-- `json!` of a list.
abbrev pub items : List Json → Items
items [] = nil
items (v ∷ vs) = cons v (items vs)

abbrev pub pair : String → Text → Fields → Fields
pair key value rest = field (codes key) (string value) rest

-- A message with a role and a content.
abbrev pub message : String → Text → Json
message role content = object (pair "role" (codes role) (pair "content" content end))

-- `serde_json::to_value` of a tool, and of the tools that are offered.
unfoldable pub tool_value : ToolSpec → Json
tool_value t = object (
    pair "type" t.kind (
      field (codes "function")
        (object (
          pair "name" t.function.name (
            pair "description" t.function.description
              (field (codes "parameters") t.function.parameters end))))
        end))

unfoldable pub tools_value : List ToolSpec → Items
unfolding tool_value
tools_value [] = nil
tools_value (t ∷ ts) = cons (tool_value t) (tools_value ts)

-- `probe_tool_list`.
unfoldable pub probe_tool_list : Json
probe_tool_list = array (
    items (
      object (
        pair "type" (codes "function") (
          field (codes "function")
            (object (
              pair "name" name_probe (
                pair "description" (codes "probe") (
                  field (codes "parameters")
                    (object (
                      pair "type" (codes "object") (
                        field (codes "properties")
                          (object (
                            field (codes "probe_arg")
                              (object (
                                pair "type" (codes "string")
                                  (pair "description" (codes "probe") end)))
                              end))
                          (field (codes "required")
                            (array (items (string (codes "probe_arg") ∷ []))) end))))
                    end))))
            end))
      ∷ []))

pub record ChatCapabilities : Type 0 where
  pub system : Bool
  pub tools : Bool
  pub tool_results : Bool

-- Both occur, the first in front of the second.
abbrev pub in_order : Text → Text → Text → Bool
in_order rendered first second = elim (find rendered first) [
  | none ↦ false
  | some i ↦ elim (find rendered second) [ none ↦ false | some j ↦ ltb i j ]
]

abbrev pub renders_in_order : Option Text → Text → Text → Bool
renders_in_order none first second = false
renders_in_order (some rendered) first second = in_order rendered first second

abbrev pub honours_tools : Option Text → Option Text → Bool
honours_tools none without_tools = false
honours_tools (some with_tools) none = false
honours_tools (some with_tools) (some without_tools) =
    not (with_tools == without_tools) && contains with_tools name_probe

abbrev pub user_only : Json
user_only = array (items (message "user" user_probe ∷ []))

abbrev pub opening_messages : Option Text → List Json
opening_messages none = message "user" user_probe ∷ []
opening_messages (some system) = message "system" system ∷ message "user" user_probe ∷ []

abbrev pub offered_value : Option (List ToolSpec) → Option Json
offered_value none = none
offered_value (some tools) = some (array (tools_value tools))

module _ (render : Text → Json → Option Json → Option Text) (template_text : Text) where
  unfoldable pub probe_system : Bool
  unfolding find
  probe_system =
      renders_in_order
        (render template_text
          (array (items (message "system" plain_probe ∷ message "user" user_probe ∷ []))) none)
        plain_probe user_probe

  unfoldable pub probe_tools : Bool
  unfolding contains probe_tool_list
  probe_tools =
      honours_tools (render template_text user_only (some probe_tool_list))
        (render template_text user_only none)

  unfoldable pub probe_tool_results : Bool
  unfolding find
  probe_tool_results =
      renders_in_order
        (render template_text
          (array (
            items (
              message "user" user_probe
              ∷ message "assistant" plain_probe
              ∷ message "tool" result_probe
              ∷ [])))
          none)
        plain_probe result_probe

  -- `derive_capabilities`.
  unfoldable pub derive_capabilities : ChatCapabilities
  unfolding probe_system probe_tools probe_tool_results
  derive_capabilities = record {
    system = probe_system;
    tools = probe_tools;
    tool_results = probe_tool_results;
  }

  -- `render_opening`.
  unfoldable pub render_opening : Option Text → Option (List ToolSpec) → Option Text
  unfolding find tools_value
  render_opening system tools = do
    rendered ← render template_text (array (items (opening_messages system))) (offered_value tools)
    user_at ← find rendered user_probe
    some (take user_at rendered)
