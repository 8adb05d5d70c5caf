-- ===== src/Gateway/PolicyScenarios.antt =====
-- A call of a workflow step that may send mail from one mailbox.
use iterabase_mono.Common.{String, ◌≡◌, refl, ◌⊎◌, true, some, [], ◌∷◌}
use iterabase_mono.Workflow.Json.{
  string, array, cons, nil, object, field, end, value, decode_map, items,
}
use iterabase_mono.Gateway.Dispatching.{stream_lost, execute_invocation}
use iterabase_mono.Common.Dict.{lookup, insert}
use iterabase_mono.Common.Result.{each}
use iterabase_mono.Gateway.Policy.{
  Admission, denied, invoke_tool, authorize, authorize_workflow_capability, find_capability,
  check_capability, effect_rank, capability_allows_action, lists_action, assert_resource_policy,
  check_binding, check_dimension, resource_allowed, lists_value,
}
use iterabase_mono.Gateway.Admitted.{IsAuthorized, AreInScope}
use iterabase_mono.Gateway.Exact.{invoke_tool-IsAuthorized}
use iterabase_mono.Gateway.LedgerScenarios.{mail_key, send_mail, config, sending}

abbrev admission : Admission
admission = record {
  permitted = some (
      record { tool = "mail.send"; max_effect_class = "non_idempotent_write"; actions = "*" ∷ [] }
      ∷ []);
  grant =
      some
        (record { max_effect_class = "non_idempotent_write"; allowed_actions = "mail.send" ∷ [] });
  fits_schema = true;
  artifacts_allowed = true;
  bindings = ("smtp", value (object (field "mailbox" (array (cons (string "desk") nil)) end))) ∷ [];
  arguments = value (object (field "mailbox" (string "desk") end));
  renders = true;
}

invoke_tool-IsAuthorized_example :
    let x = invoke_tool config mail_key admission (sending "v1" stream_lost) [] in
    ((IsAuthorized admission send_mail × AreInScope admission × (true ≡ true))
      × (x ≡ execute_invocation config mail_key (sending "v1" stream_lost) []))
    ⊎ (¬ (IsAuthorized admission send_mail × AreInScope admission × (true ≡ true))
        × ((code : String) × (x ≡ denied code [])))
invoke_tool-IsAuthorized_example =
    invoke_tool-IsAuthorized config mail_key admission (sending "v1" stream_lost) []

-- The call is executed.
executed :
    invoke_tool config mail_key admission (sending "v1" stream_lost) []
    ≡ execute_invocation config mail_key (sending "v1" stream_lost) []
unfolding invoke_tool authorize authorize_workflow_capability find_capability check_capability
    effect_rank capability_allows_action lists_action assert_resource_policy decode_map each
    check_binding check_dimension resource_allowed lists_value lookup insert items
executed = refl
