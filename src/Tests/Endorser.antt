-- ===== src/Tests/Endorser.antt =====
-- The custom endorser and its client, run with an SDK that answers every call.
use fabric_x_samples.Prelude.{
  true, false, Option, none, some, List, [], ◌∷◌, ◌≡◌, ◌↔◌, refl, String,
}
use fabric_x_samples.Go.{Error, Outcome, ◌>>=◌, ok, err, panic}
use fabric_x_samples.Tokens.Int.{pos}
use fabric_x_samples.Endorser.Config.{
  Config, ClientConfig, Endpoint, IdentityConfig, TlsConfig, validate,
}
use fabric_x_samples.Endorser.Config.Laws.{HasSettings, validate_iff}
use fabric_x_samples.Endorser.Types.{Invocation, Access, ProposalResponse, fabric_x, Call, Platform}
use fabric_x_samples.Endorser.Executor.{execute, execute_function}
use fabric_x_samples.Endorser.Service.{
  Service, ServiceConfig, new_with_signer, process_proposal, wait_for_ready,
}
use fabric_x_samples.Endorser.Service.Proposals.{
  Answers, Refusal, process_proposal-Answers, process_proposal_refuses, process_proposal_panics,
}
use fabric_x_samples.Endorser.Service.Waiting.{Waited, wait_for_ready-Waited}
use fabric_x_samples.Endorser.Service.Running.{run_service}
use fabric_x_samples.Endorser.Service.Running.Databases.{
  Closes, openings, closings, new_with_signer-run_service, new_with_signer_leaks,
}
use fabric_x_samples.Endorser.Client.{invoke, query}
use fabric_x_samples.Endorser.Client
use fabric_x_samples.Endorser.Client.Submissions.{
  IsApproved, invoke-IsApproved, Queried, query-Queried,
}
use fabric_x_samples.Endorser.Programs.{runs, invoke_cmd, run_subcommand, client_main}
use fabric_x_samples.Endorser.Programs.Ends.{Ends, Done, client_main-Ends}
use fabric_x_samples.Endorser.EndToEnd.{Delivered, Executes, start-invoke}
use fabric_x_samples.Endorser.Main.{Command, start, run}
use fabric_x_samples.Endorser.Main.Starts.{run_panics}

abbrev response_1 : ProposalResponse
response_1 = record { status = 200; message = ""; payload = "42" }

-- An SDK on which every call succeeds.
abbrev demo : Platform
demo = record {
  new_store = λ h ns block monotonic. ok tt;
  get_state = λ h key. ok "42";
  put_state = λ h key value. ok tt;
  result = λ h. Access.read "key" ∷ [];
  endorse = λ h n inv res. ok response_1;
  new_write_db = λ h channel conn. ok tt;
  new_read_db = λ h channel conn. ok tt;
  new_synchronizer = λ h n channel conf. ok tt;
  signer_from_msp = λ dir id. ok "signer";
  serve = λ h. ok tt;
  block_number = λ h. ok 7;
  new_endorsement_client = λ channel ns confs. ok tt;
  new_submitter = λ n conf. ok tt;
  execute_transaction = λ h ns version args. ok (response_1 ∷ []);
  submit = λ h. ok tt;
}

abbrev service_1 : Service
service_1 = record {
  channel = "mychannel";
  synchronizer = some fabric_x;
  executors = ("mynamespace", execute demo) ∷ [];
  builder = some fabric_x;
  monotonic_versions = true;
}

abbrev invocation : String → String → List String → Invocation
invocation channel ns args = record {
  tx_id = "tx1";
  channel = channel;
  cc_name = ns;
  cc_version = "";
  args = args;
}

abbrev get_key : Invocation
get_key = invocation "mychannel" "mynamespace" ("get" ∷ "key" ∷ [])

process_proposal-Answers_example :
    Answers demo service_1 [] (ok get_key) (process_proposal demo service_1 (ok get_key) [])
process_proposal-Answers_example = process_proposal-Answers demo service_1 [] (ok get_key)

abbrev elsewhere : Invocation
elsewhere = invocation "mychannel" "other" []

process_proposal_refuses_example :
    (e : Error) × (Refusal demo service_1 [] elsewhere e
      × (process_proposal demo service_1 (ok elsewhere) [] ≡ (err e, [])))
process_proposal_refuses_example = process_proposal_refuses demo service_1 [] elsewhere (λ e. refl)

abbrev no_args : Invocation
no_args = invocation "mychannel" "mynamespace" []

process_proposal_panics_example :
    (process_proposal demo service_1 (ok no_args) []).0
    ≡ panic "index out of range [0] with length 0"
unfolding execute execute_function
process_proposal_panics_example =
    process_proposal_panics demo service_1 [] no_args (execute demo) fabric_x _ response_1 _ refl
      refl refl refl refl refl

wait_for_ready-Waited_example :
    Waited
      ((false, false) ∷ (true, false) ∷ [])
      (wait_for_ready ((false, false) ∷ (true, false) ∷ []))
wait_for_ready-Waited_example = wait_for_ready-Waited ((false, false) ∷ (true, false) ∷ [])

abbrev no_tls : TlsConfig
no_tls = record { mode = "none"; cert_path = ""; key_path = ""; ca_cert_paths = [] }

abbrev service_config : ServiceConfig
service_config = record {
  channel_id = "mychannel";
  protocol = "fabric-x";
  committer = record { address = "peer:7051"; tls = no_tls };
  db_conn_str = "file:endorser.db";
}

new_with_signer-run_service_example :
    Closes demo [] ((new_with_signer demo service_config "signer" [] >>= run_service) [])
new_with_signer-run_service_example = new_with_signer-run_service demo service_config "signer" [] []

-- An SDK that cannot open a database for reading.
abbrev no_read_db : Platform
no_read_db = record demo { new_read_db = λ h channel conn. err (Error.message "locked") }

new_with_signer_leaks_example :
    ((new_with_signer no_read_db service_config "signer" [] []).0
      ≡ err (Error.wrap "db" (Error.message "locked")))
    × (openings no_read_db (new_with_signer no_read_db service_config "signer" [] []).1 ≡ 1)
    × (closings (new_with_signer no_read_db service_config "signer" [] []).1 ≡ 0)
new_with_signer_leaks_example =
    new_with_signer_leaks no_read_db service_config "signer" [] [] refl refl

abbrev endpoint_1 : Endpoint
endpoint_1 = record { host = "localhost"; port = pos 7050 }

abbrev peer_1 : ClientConfig
peer_1 = record { endpoint = some endpoint_1; tls = no_tls }

abbrev identity_1 : IdentityConfig
identity_1 = record { msp_id = "Org1MSP"; msp_dir = "msp" }

abbrev config_of : Option IdentityConfig → Config
config_of identity = record {
  channel_id = "mychannel";
  server = some "localhost:9000";
  committer = peer_1;
  identity = identity;
  log_spec = "INFO";
  protocol = "";
  conn_str = "file:endorser.db";
}

validate_iff_example : (validate (config_of none) ≡ []) ↔ HasSettings (config_of none)
validate_iff_example = validate_iff (config_of none)

abbrev command_of : Option IdentityConfig → Command
command_of identity = record {
  open_config = ok tt;
  read_config = ok tt;
  unmarshal_config = ok (config_of identity);
  log_level = some "DEBUG";
}

run_panics_example : run demo (command_of none) [] ≡ (panic "nil pointer dereference", [])
unfolding validate
run_panics_example = run_panics demo (command_of none) (config_of none) [] refl refl refl refl refl

abbrev client_config : Client.Config
client_config = record {
  channel_id = "mychannel";
  namespace = "mynamespace";
  protocol = "fabric-x";
  identity = some identity_1;
  endorsers = peer_1 ∷ [];
  orderer = some peer_1;
}

abbrev client_command : Client.Command
client_command = record {
  flag_namespace = "";
  open_config = ok tt;
  read_config = ok tt;
  unmarshal_config = ok client_config;
  unmarshal_tx = ok (record { function = "get"; args = "key" ∷ [] });
}

invoke-IsApproved_example : IsApproved demo (invoke demo client_command []).1
invoke-IsApproved_example = invoke-IsApproved demo client_command [] tt

query-Queried_example : Queried demo client_command [] (query demo client_command [])
query-Queried_example = query-Queried demo client_command []

client_main-Ends_example :
    Ends
      (run_subcommand demo)
      (Done demo [])
      []
      (runs (invoke_cmd client_command))
      (client_main demo (runs (invoke_cmd client_command)) [])
client_main-Ends_example = client_main-Ends demo [] (runs (invoke_cmd client_command))

-- The service that the program starts, and an SDK that delivers transactions to it.
abbrev started : Service
started = record {
  channel = "mychannel";
  synchronizer = some fabric_x;
  executors = ("mynamespace", execute demo) ∷ [];
  builder = some fabric_x;
  monotonic_versions = true;
}

abbrev proposal : String → String → List String → Invocation
proposal namespace version args = record {
  tx_id = "tx1";
  channel = "mychannel";
  cc_name = namespace;
  cc_version = version;
  args = args;
}

abbrev deliver : Outcome ProposalResponse × List Call → Outcome (List ProposalResponse)
deliver (ok response, g) = ok (response ∷ [])
deliver (err e, g) = err e
deliver (panic why, g) = err (Error.message why)

abbrev wired : Platform
wired = record demo {
  execute_transaction = λ h namespace version args.
      deliver (process_proposal demo started (ok (proposal namespace version args)) []);
}

wired-Delivered :
    (h : List Call) (namespace version : String) (args : List String)
    → Delivered wired demo started namespace args
        (wired.execute_transaction h namespace version args)
wired-Delivered h namespace version args =
    answered (process_proposal demo started (ok (proposal namespace version args)) []) refl
  where
    answered :
        (r : Outcome ProposalResponse × List Call)
        → process_proposal demo started (ok (proposal namespace version args)) [] ≡ r
        → Delivered wired demo started namespace args (deliver r)
    answered (ok response, g) e = (proposal namespace version args, [], g, (refl, refl, e))
    answered (err x, g) e = tt
    answered (panic why, g) e = tt

start-invoke_example :
    Executes wired demo started
      (config_of (some identity_1))
      client_command.unmarshal_tx
      []
      (invoke wired client_command []).1
unfolding start invoke process_proposal execute execute_function validate
    fabric_x_samples.Endorser.Service.new fabric_x_samples.Endorser.Config.to_orderer_conf
start-invoke_example =
    start-invoke wired demo started (command_of (some identity_1)) (config_of (some identity_1)) []
      (start demo (command_of (some identity_1)) []).1 refl refl wired-Delivered client_command []
      (invoke wired client_command []).1 refl
