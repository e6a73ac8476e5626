-- ===== src/CoreGo/Failure.antt =====
-- action-result.ts, and `failure` of the judge's actions: what a screen is told of a throw.
use astrea.Prelude.{ℕ, Option, none, some, [], ◌++◌, Text, ◌===◌, codes, digits, if◌then◌else◌}
use astrea.CoreGo.Client.{
  Platform, CoreGoThrown, core_go_error, transport_error, config_error, unknown,
}

pub record ActionFailure : Type 0 where
  pub status : ℕ
  pub code : Text
  pub message : Text
  pub tx_hash : Option Text

unfoldable pub not_connected : ActionFailure
not_connected = record { status = 401; code = codes "not_connected"; message = []; tx_hash = none }

-- The message of a `CoreGoTransportError`.
unfoldable pub transport_message : ℕ → Text → Text
transport_message status detail =
    codes "core-go returned a non-JSON response (HTTP "
    ++ (digits status ++ (codes "): " ++ detail))

-- The organizer's screens.
unfoldable pub failure : CoreGoThrown → ActionFailure
unfolding transport_message
failure (core_go_error status code message) = record {
  status = status;
  code = code;
  message = message;
  tx_hash = none;
}
failure (transport_error status detail) = record {
  status = status;
  code = codes "transport";
  message = transport_message status detail;
  tx_hash = none;
}
failure (config_error message) = record {
  status = 0;
  code = codes "config";
  message = message;
  tx_hash = none;
}
failure (unknown message) = record {
  status = 0;
  code = codes "unknown";
  message = message;
  tx_hash = none;
}

pub record ReleaseFailure : Type 0 where
  pub status : ℕ
  pub code : Text
  pub message : Text

-- The judge's screen, which has no case of its own for a missing configuration.
unfoldable pub release_failure : CoreGoThrown → ReleaseFailure
unfolding transport_message
release_failure (core_go_error status code message) = record {
  status = status;
  code = code;
  message = message;
}
release_failure (transport_error status detail) = record {
  status = status;
  code = codes "transport";
  message = transport_message status detail;
}
release_failure (config_error message) = record {
  status = 0;
  code = codes "unknown";
  message = message;
}
release_failure (unknown message) = record { status = 0; code = codes "unknown"; message = message }

unfoldable pub own_address : Text → Text → Option ActionFailure
own_address session_address address =
    if session_address === address
    then none
    else some (record {
      status = 403;
      code = codes "not_wallet_owner";
      message = codes "address is not the session wallet";
      tx_hash = none;
    })

-- The SDK's hash of a signed envelope on the app's network; `undefined` if it cannot be read.
unfoldable pub hash_of : Platform → Text → Option Text
hash_of p xdr = p.hash_of_envelope xdr
