-- ===== src/Application/Session.antt =====
-- lib/applications/worker-store.ts: who a worker's token stands for, the transaction around each worker request, and the
-- stored commands by which an applicant's request is answered once. A token is a text; its hash, the household
-- configuration and the binding hash come from `Env`.
use Prim.Native.String.{String}
use Prim.Native.Char.{code}
use job_dashboard.Prelude.{
  ℕ, suc, ◌==◌, leb, Bool, true, false, not, ◌&&◌, ◌||◌, Option, none, some, if◌then◌else◌, is_some,
  same, find, List, any,
}
use job_dashboard.Application.Requests.{ScopedRequest, Acknowledgement}
use job_dashboard.Application.Rows.{Pairing, Worker, User, StoredCommand, Db, Env}
use job_dashboard.Application.Tx.{
  conflict, unauthorized, household_missing, Failure, worker_error, Outcome, done, denied, thrown,
  M, ◌>>=◌, ◌>>◌, return, read, fail, deny, require, command_key, insert_command,
}
use job_dashboard.Application.WorkerStore.{pairing_of, invalidate_worker}

-- The binding that the household configuration gives a verified member of it.
unfoldable pub user_binding : Env → ℕ → List ℕ → Option User → Option ℕ
unfolding any
user_binding env owner profiles none = none
user_binding env owner profiles (some user) =
    if user.email_verified && any (λ email. email == user.email) profiles
    then some (env.hash_binding owner user.email)
    else none

unfoldable pub credential_binding : Env → ℕ → M (Option ℕ)
credential_binding env owner = do
  profiles ← require env.household 503 household_missing
  user ← read (λ db. find (λ (u : User). u.id == owner) db.users)
  return (user_binding env owner profiles user)

-- Neither the worker nor its pairing is revoked, and both carry the owner's present binding.
unfoldable pub credentials_hold : Worker → Option ℕ → Option Pairing → Bool
credentials_hold row binding none = false
credentials_hold row binding (some pairing) =
    not (is_some row.revoked_at)
    && same binding (some row.credential_binding)
    && not (is_some pairing.revoked_at)
    && same binding (some pairing.credential_binding)

unfoldable pub settle_worker : Worker → Bool → ℕ → M Bool
settle_worker row true now = return true
settle_worker row false now = do invalidate_worker row now; return false

unfoldable pub current_worker : Env → Worker → ℕ → M Bool
current_worker env row now = do
  binding ← credential_binding env row.owner_id
  pairing ← read (λ db. find (pairing_of row) db.pairings)
  settle_worker row (credentials_hold row binding pairing) now

-- `/^[A-Za-z0-9_-]{43}$/`
token_char : ℕ → Bool
token_char c =
    (leb b'A' c && leb c b'Z')
    || (leb b'a' c && leb c b'z')
    || (leb b'0' c && leb c b'9')
    || c == b'_'
    || c == b'-'

token_chars : ℕ → String → Bool
token_chars n String.[] = n == 43
token_chars n (String.◌∷◌ c rest) = token_char (code c) && token_chars (suc n) rest

unfoldable pub token_shape : String → Bool
unfolding token_char token_chars
token_shape token = token_chars 0 token

-- What a request's answer is, beside the database that it leaves.
pub data Answer (A : Type 0) : Type 0 where
  ok : A → Answer A
  error : Failure → Answer A

-- `workerTransaction`: a returned error commits, and is thrown after that.
unfoldable pub commit : {A : Type 0} → Db → Outcome A → Answer A × Db
commit db (done a db') = (ok a, db')
commit db (denied e db') = (error e, db')
commit db (thrown e) = (error e, db)

unfoldable pub admit : {A : Type 0} → Worker → Bool → (Worker → M A) → M A
admit worker true action = action worker
admit worker false action = deny 401 unauthorized

unfoldable pub with_known_worker : {A : Type 0} → Env → ℕ → Option Worker → (Worker → M A) → M A
with_known_worker env now none action = deny 401 unauthorized
with_known_worker env now (some worker) action = do
  valid ← current_worker env worker now
  admit worker valid action

unfoldable pub with_worker : {A : Type 0} → Env → String → ℕ → (Worker → M A) → Db → Answer A × Db
with_worker env token now action db =
    if token_shape token
    then commit db (
        with_known_worker env now
          (find (λ (w : Worker). w.token_hash == env.hash_token token) db.workers) action db)
    else (error (worker_error 401 unauthorized), db)

-- `replayCommand`: the stored answer, unless the request id was used for another request.
unfoldable pub stored_answer :
    Env → ScopedRequest → Option StoredCommand → M (Option Acknowledgement)
stored_answer env request none = return none
stored_answer env request (some previous) =
    if previous.request_hash == env.hash_request request
    then return (some previous.acknowledgement)
    else fail 409 conflict

unfoldable pub replay_command :
    Env → (owner request_id : ℕ) → ScopedRequest → M (Option Acknowledgement)
replay_command env owner request_id request = do
  previous ← read (λ db. find (command_key owner request_id) db.commands)
  stored_answer env request previous

unfoldable pub save_command :
    Env → (owner request_id : ℕ) → ScopedRequest → Acknowledgement → ℕ → M Acknowledgement
save_command env owner request_id request answer now = do
  insert_command (record {
    owner_id = owner;
    request_id = request_id;
    request_hash = env.hash_request request;
    acknowledgement = answer;
    created_at = now;
  })
  return answer
