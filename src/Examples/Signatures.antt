-- ===== src/Examples/Signatures.antt =====
-- transaction/Transaction.js under src/ at concrete inputs.
use hedera_sdk_js.Common.{ℕ, ◌+◌, String, List, [], ◌∷◌, none, some, true, false, ◌≡◌, refl, arith}
use hedera_sdk_js.Common.Outcome.{returns}
use hedera_sdk_js.LockableList.{create, current, get}
use hedera_sdk_js.Chunks.{TransactionId}
use hedera_sdk_js.Transaction.{Body, Signed, Transaction, freeze_with}
use hedera_sdk_js.Transaction.Signing.{sign_with, remove_signature}
use hedera_sdk_js.Transaction.Signing.Laws.{Edit, sign, detach, edits, edits-IsSigned}
use hedera_sdk_js.Transaction.Signing.Keeps.{IsSigned, bodies}
use hedera_sdk_js.Transaction.Signing.Frozen.{edits-freeze_with}
use hedera_sdk_js.Transaction.Signing.RoundTrip.{contents, signatures, remove_signature-sign_with}
use hedera_sdk_js.Transaction.Requests.{make_request}
use hedera_sdk_js.Transaction.Requests.Laws.{make_request_lem}
use hedera_sdk_js.Transaction.Requests.Freezing.{make_request-freeze_with}

abbrev id : TransactionId
id = record { account_id = "0.0.2"; seconds = 5; nanos = 0 }

abbrev later : String → TransactionId
later account = record { account_id = account; seconds = 9; nanos = 0 }

abbrev fresh : Transaction ℕ ℕ
fresh = record {
  content = 7;
  transactions = create;
  signed = create;
  transaction_ids = record { list = some id ∷ []; locked = true; index = some 0 };
  node_account_ids = record {
    list = some "0.0.3" ∷ some "0.0.4" ∷ [];
    locked = true;
    index = some 1;
  };
  signer_public_keys = [];
  public_keys = [];
  signers = [];
  sign_on_demand = false;
  operator_account_id = none;
  operator = none;
  max_fee = none;
  default_max_fee = 200;
  regenerate = none;
  memo = "memo";
  valid_duration = 120;
}

abbrev body : String → Body ℕ
body node = record {
  content = 7;
  fee = some 200;
  memo = "memo";
  transaction_id = some id;
  node = some node;
  valid_duration = 120;
}

abbrev unsigned : String → Signed ℕ ℕ
unsigned node = record { body = body node; sig_map = some [] }

abbrev frozen : Transaction ℕ ℕ
frozen = record fresh {
  max_fee = some 200;
  signed = record {
    list = some (unsigned "0.0.3") ∷ some (unsigned "0.0.4") ∷ [];
    locked = false;
    index = some 0;
  };
}

freezes : freeze_with none later fresh ≡ returns frozen
unfolding freeze_with
freezes = refl

abbrev signer : Body ℕ → ℕ
signer b = b.content + 1

frozen-IsSigned : IsSigned frozen
frozen-IsSigned = record {
  carries = (refl, (refl, tt));
  unique = tt;
  not_on_demand = refl;
  frozen = refl;
}

abbrev three_edits : List (Edit ℕ ℕ)
three_edits = sign "aa" signer ∷ sign "bb" signer ∷ detach "aa" ∷ []

abbrev signed_by_bb : String → Signed ℕ ℕ
signed_by_bb node = record (unsigned node) {
  sig_map = some (record { prefix = "bb"; signature = 8 } ∷ []);
}

abbrev edited : Transaction ℕ ℕ
edited = record frozen {
  transaction_ids = record { list = some id ∷ []; locked = true; index = some 0 };
  node_account_ids = record {
    list = some "0.0.3" ∷ some "0.0.4" ∷ [];
    locked = true;
    index = some 1;
  };
  signed = record {
    list = some (signed_by_bb "0.0.3") ∷ some (signed_by_bb "0.0.4") ∷ [];
    locked = false;
    index = some 0;
  };
  signer_public_keys = "bb" ∷ [];
}

edits_work : edits later three_edits frozen ≡ returns edited
unfolding edits
edits_work = refl

edits-IsSigned_example : IsSigned edited × (bodies edited.signed.list ≡ bodies frozen.signed.list)
edits-IsSigned_example = edits-IsSigned later three_edits frozen edited frozen-IsSigned edits_work

edits-freeze_with_example :
    IsSigned edited × (bodies edited.signed.list ≡ bodies frozen.signed.list)
edits-freeze_with_example =
    edits-freeze_with none later three_edits fresh frozen edited freezes refl refl refl
      (omega arith) edits_work

remove_signature-sign_with_example :
    (m : Transaction ℕ ℕ) × (k : Transaction ℕ ℕ) × (sign_with "aa" signer frozen ≡ returns m)
    × (remove_signature "aa" later m ≡ returns (k, signatures signer frozen.signed.list))
    × (contents k.signed.list ≡ contents frozen.signed.list)
    × (k.signer_public_keys ≡ frozen.signer_public_keys)
remove_signature-sign_with_example =
    remove_signature-sign_with "aa" signer later frozen frozen-IsSigned refl

make_request_lem_example :
    (m : Transaction ℕ ℕ) × (make_request edited ≡ returns (some (signed_by_bb "0.0.4"), m))
unfolding get
make_request_lem_example =
    make_request_lem edited 0 1 (signed_by_bb "0.0.4") refl refl refl refl refl

make_request-freeze_with_example :
    (s : Signed ℕ ℕ) × (k : Transaction ℕ ℕ) × (make_request frozen ≡ returns (some s, k))
    × (s.body.node ≡ current frozen.node_account_ids)
    × (s.body.transaction_id ≡ current frozen.transaction_ids)
make_request-freeze_with_example =
    make_request-freeze_with none later fresh frozen 1 refl refl freezes refl refl refl
      (omega arith)
