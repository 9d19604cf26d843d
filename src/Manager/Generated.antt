-- ===== src/Manager/Generated.antt =====
-- UpdateSubscription of manager/manager.go, which adds to the answer of the subscriptions' handler
-- what the subscription alone would be configured as.
use target_lib.Base.{
  Bool, [], Option, none, some, Text, is_empty, Result, ok, err, ◌>>=◌, if◌then◌else◌,
}
use target_lib.Config.Settings.{Settings}
use target_lib.Config.Model.{RuntimeModel}
use target_lib.Config.Normalize.{normalize_runtime_model}
use target_lib.Subscriptions.Model.{Subscription, lookup}
use target_lib.Subscriptions.Store.{Store}
use target_lib.Subscriptions.Coordinator.{World}
use target_lib.Subscriptions.Handler.{Course, UpdateAnswer, update_subscription}
use target_lib.Subscriptions.Handler.Messages.{StatusCode}
use target_lib.Manager.{Code, RuntimeSettings, or_invalid, build_settings}

-- An error of the handler, or one of the manager.
pub data Fault : Type 0 where
  of_handler : StatusCode → Fault
  of_manager : Code → Fault

-- The answer with generated_config, which is empty if there is nothing to compare it with.
pub record GeneratedAnswer : Type 0 where
  pub answer : UpdateAnswer
  pub generated_config : Text

-- buildRuntimeConfigForModel is a parameter, as it hands the plan to sing-box.
module _ (mobile : Bool) (emit : Settings → RuntimeModel → Result Code Text)
    (saved : Option RuntimeSettings) where
  abbrev pub model_of : Subscription → RuntimeModel
  model_of s = record {
    node_pool = record { nodes = s.profile.nodes };
    selectors = [];
    service_routes = [];
  }

  unfoldable pub generated_config : Subscription → Result Code Text
  generated_config s = do
    settings ← build_settings mobile saved
    model ← or_invalid (normalize_runtime_model (model_of s))
    emit settings model

  abbrev pub with_generated : UpdateAnswer → Result Code Text → Result Fault GeneratedAnswer
  with_generated a (err e) = err (of_manager e)
  with_generated a (ok content) = ok (record { answer = a; generated_config = content })

  abbrev pub for_subscription : UpdateAnswer → Option Subscription → Result Fault GeneratedAnswer
  for_subscription a none = err (of_handler StatusCode.not_found)
  for_subscription a (some s) = with_generated a (generated_config s)

  module _ (S : Store) (C : Course S) where
    abbrev pub completed_answer :
        Text → World S × Result StatusCode UpdateAnswer → World S × Result Fault GeneratedAnswer
    completed_answer id (w, err e) = (w, err (of_handler e))
    completed_answer id (w, ok a) =
        if is_empty a.original_config
        then (w, ok (record { answer = a; generated_config = [] }))
        else (w, for_subscription a (lookup w.items id))

    unfoldable pub update_subscription_generated :
        Option StatusCode → Text → World S → World S × Result Fault GeneratedAnswer
    update_subscription_generated ended id w =
        completed_answer id (update_subscription S C ended id w)
