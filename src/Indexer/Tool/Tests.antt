-- ===== src/Indexer/Tool/Tests.antt =====
-- The tool asks for a sub-directory, and a retry with another path is refused.
use longhaul.Base.{String, ◌≡◌, refl, ◌⊎◌, true, some, List, ok}
use longhaul.Json.{string, Fields, field, end}
use longhaul.Json.Sample.{sample_methods}
use longhaul.Core.Tools.Outcome.{input_required, option_and_then}
use longhaul.Server.Store.Memory.{memory_store}
use longhaul.Server.Store.Refines.{memory_view, memory_store-Implements}
use longhaul.Indexer.Tool.{handle_retry, first_call, contains, asked, candidates_of}
use longhaul.Indexer.Tool.Sample.{platform, idle, both, read_token}
use longhaul.Indexer.Tool.Laws.{Starts, IsInvalid, FirstCall, handle_retry_lem, first_call_lem}

first_call_asks :
    first_call platform sample_methods memory_store "root" idle
    ≡ (ok (input_required (asked platform sample_methods memory_store both "root/src-a")), idle)
unfolding first_call candidates_of
first_call_asks = refl

first_call_lem_example :
    FirstCall platform sample_methods memory_view memory_store
      (λ t. t)
      memory_store-Implements
      "root"
      idle
      (first_call platform sample_methods memory_store "root" idle)
first_call_lem_example =
    first_call_lem platform sample_methods memory_view memory_store (λ t. t) memory_store-Implements
      "root" idle

abbrev stray : Fields
stray = field "selectedPath" (string "root/doc") end

handle_retry_lem_example :
    ((cs : List String) × (chosen : String) × (read_token "root/src-a" ≡ ok cs)
      × (option_and_then (sample_methods.map_get stray "selectedPath") sample_methods.as_str
          ≡ some chosen)
      × (contains platform sample_methods memory_store cs chosen ≡ true)
      × Starts platform sample_methods memory_view memory_store
          (λ t. t)
          memory_store-Implements
          chosen
          idle
          (handle_retry platform sample_methods memory_store stray "root/src-a" idle))
    ⊎ (IsInvalid platform sample_methods memory_view memory_store
          (λ t. t)
          memory_store-Implements
          (handle_retry platform sample_methods memory_store stray "root/src-a" idle)
        × ((handle_retry platform sample_methods memory_store stray "root/src-a" idle).1 ≡ idle))
handle_retry_lem_example =
    handle_retry_lem platform sample_methods memory_view memory_store (λ t. t)
      memory_store-Implements stray "root/src-a" idle
