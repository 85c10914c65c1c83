-- ===== src/Tests/RestartTests.antt =====
-- A transcript whose last turn was cut off by a restart.
use sun_pilot.Base.{String, List, [], ◌∷◌, ◌++◌, ◌≡◌, refl, All}
use sun_pilot.Json.{obj, end}
use sun_pilot.Text.Units.{units}
use sun_pilot.React.Calls.{ToolCall, value}
use sun_pilot.React.Transcript.{
  ChatMessage, assistant_message, tool_message, plain, user, unresolved,
  close_unresolved_tool_calls,
}
use sun_pilot.React.Transcript.Unresolved.{
  close_unresolved_tool_calls_lem, AllAnswered, IsMissingIn,
}

abbrev asked : String → ToolCall
asked id = record { id = id; name = "read"; arguments = value (obj end) }

abbrev cut_off : List ChatMessage
cut_off =
    plain user (units "go")
    ∷ assistant_message [] (asked "1" ∷ asked "2" ∷ [])
    ∷ tool_message "1" (units "done")
    ∷ []

still_asked : unresolved cut_off ≡ asked "2" ∷ []
unfolding unresolved
still_asked = refl

close_unresolved_tool_calls_lem_example :
    AllAnswered (close_unresolved_tool_calls cut_off) (close_unresolved_tool_calls cut_off)
    × (added : List ChatMessage) × (close_unresolved_tool_calls cut_off ≡ cut_off ++ added)
    × All (IsMissingIn cut_off) added
close_unresolved_tool_calls_lem_example = close_unresolved_tool_calls_lem cut_off
