-- ===== src/Executor/Errors/Tests.antt =====
-- Runs of the classification.
use git_sync_core.Prelude.{
  ◌≡◌, refl, none, some, codes, true, false, to_lower, contains, has_prefix,
}
use git_sync_core.Executor.Errors.{
  GoError, new_error, wrap, classify, classify_error, classify_message, classify_provider,
  names_one_of,
}
use git_sync_core.Executor.Errors.Wrapping.{Neutral, classify-wrap}

nil_class : classify none ≡ ""
unfolding classify
nil_class = refl

refused_push_class : classify (some (new_error (codes "! [rejected] main (Fetch First)"))) ≡ "git"
unfolding classify classify_error classify_message names_one_of contains has_prefix to_lower
refused_push_class = refl

abbrev rate_limited_error : GoError
rate_limited_error = record {
  message = codes "403 Forbidden";
  provider = some (record {
    authentication = false;
    rate_limited = true;
    not_found = false;
    server_error = false;
    client_error = true;
  });
}

structured_class : classify (some rate_limited_error) ≡ "network"
unfolding classify classify_error classify_provider
structured_class = refl

clone_is_Neutral : Neutral (codes "clone failed")
unfolding names_one_of contains has_prefix to_lower
clone_is_Neutral = (refl, (refl, (refl, refl)))

classify-wrap_example :
    classify (some (wrap (codes "clone failed") (new_error (codes "dial tcp 10.0.0.7:443"))))
    ≡ classify (some (new_error (codes "dial tcp 10.0.0.7:443")))
classify-wrap_example =
    classify-wrap (codes "clone failed") (new_error (codes "dial tcp 10.0.0.7:443"))
      clone_is_Neutral
