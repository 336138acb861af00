-- ===== src/Service/Steps/Signs.antt =====
-- `Sign` keeps the rules of the goroutines that share a `Protocol`.
use ubirch_cose_client_go.Prelude.{◌≤◌, ◌⊎◌, ◌≡◌, refl, inl, inr, Bytes, arith}
use ubirch_cose_client_go.Errors.{Result, ok, err, Result-cases}
use ubirch_cose_client_go.Context.{Uuid, Identity}
use ubirch_cose_client_go.Libs.{Env}
use ubirch_cose_client_go.Client.{ExtendedClient}
use ubirch_cose_client_go.Protocol.{Protocol}
use ubirch_cose_client_go.Http.{HttpRequest, HttpResponse, status_ok, error_response}
use ubirch_cose_client_go.Signer.{CoseSigner, create_signed_cose, answer}
use ubirch_cose_client_go.Service.{Service}
use ubirch_cose_client_go.Threads.{Thread}
use ubirch_cose_client_go.Threads.Safety.{Rules, Safe, calling-Safe, focus-Safe}
use ubirch_cose_client_go.Protocol.Steps.{get_skid_steps}
use ubirch_cose_client_go.Protocol.Steps.Certified.{Certified, Certified-Later}
use ubirch_cose_client_go.Protocol.Steps.Rely.{IsKeeping, IsCoherent-Later}
use ubirch_cose_client_go.Protocol.Steps.Kept.{rules}
use ubirch_cose_client_go.Protocol.Steps.Loading.{SkidGot, get_skid-Safe}
use ubirch_cose_client_go.Service.Steps.{
  protocol_of, with_protocol, on_protocol, signed_steps, sign_steps,
}
use ubirch_cose_client_go.Service.Steps.Granted.{service_rules, protocol-IsCoherentService}

module _ {W Tx PublicKey : Type 0} (e : Env W Tx PublicKey) (client : ExtendedClient)
    (Later : W → W → Type 0) (Row : Uuid → Identity → W → Type 0)
    (Registered : Bytes → Uuid → W → Type 0) (keeping : IsKeeping e Later Row Registered)
    (c : CoseSigner) where
  abbrev pub alone : Rules (Protocol W)
  alone = rules e client Later Row Registered keeping

  abbrev pub shared : Rules (Service W)
  shared = service_rules e client Later Row Registered c keeping

  -- A method of the `Protocol` that keeps its rules keeps those of the service.
  pub on_protocol-Safe :
      {A : Type 0} (Promised : A → Protocol W → Type 0) (t : Thread (Protocol W) A) (s : Service W)
      → Safe alone Promised t s.protocol
      → Safe shared (λ a s'. Promised a s'.protocol) (on_protocol t) s
  on_protocol-Safe Promised t s safe =
      focus-Safe shared alone protocol_of with_protocol (λ p s'. refl) (λ s' s'' later. later.0)
        (λ s' holds. holds.protocol)
        (λ p s' holds coherent later. (
          protocol-IsCoherentService e client Later Row Registered c keeping p s' holds coherent
              later,
          (later, λ entry logged. logged),
        ))
        Promised t s safe

  -- What the answer of `Sign` says.
  pub record Made (uid : Uuid) (hash key payload body : Bytes) (w : W) : Type 0 where
    pub skid : Bytes
    pub certified : Certified e Registered client uid skid w
    pub from : W
    pub made : (create_signed_cose e c hash key skid payload from).0 ≡ ok body

  abbrev pub Answer : HttpRequest → Bytes → HttpResponse → Protocol W → Type 0
  Answer msg key resp p =
      ((resp.status_code ≡ status_ok) × Made msg.id msg.hash key msg.payload resp.content p.world)
      ⊎ (400 ≤ resp.status_code)

  Made-Later :
      (uid : Uuid) (hash key payload body : Bytes) (w w' : W)
      → Later w w'
      → Made uid hash key payload body w
      → Made uid hash key payload body w'
  Made-Later uid hash key payload body w w' later m = record {
    skid = m.skid;
    certified =
        Certified-Later e Registered client Later keeping.keeps_key uid m.skid w w' later
          m.certified;
    from = m.from;
    made = m.made;
  }

  answer_now :
      (msg : HttpRequest) (key skid : Bytes) (p : Protocol W) (from : W) (r : Result Bytes)
      → Certified e Registered client msg.id skid p.world
      → (create_signed_cose e c msg.hash key skid msg.payload from).0 ≡ r
      → Answer msg key (answer r) p
  unfolding error_response
  answer_now msg key skid p from (err x) certified made = inr (ground arith)
  answer_now msg key skid p from (ok body) certified made =
      inl (refl, record { skid = skid; certified = certified; from = from; made = made })

  pub Answer-Later :
      (msg : HttpRequest) (key : Bytes) (resp : HttpResponse) (p q : Protocol W)
      → Later p.world q.world
      → Answer msg key resp p
      → Answer msg key resp q
  Answer-Later msg key resp p q later (inr refused) = inr refused
  Answer-Later msg key resp p q later (inl (fine, m)) =
      inl (fine, Made-Later msg.id msg.hash key msg.payload resp.content p.world q.world later m)

  create_signed_cose_on :
      (hash key skid payload : Bytes) (w : W)
      → Later w (create_signed_cose e c hash key skid payload w).1
  unfolding create_signed_cose
  create_signed_cose_on hash key skid payload w =
      elim (Result-cases (e.crypto.sign_hash key hash w).0) [
        | inl (x, failed) ↦ rw failed (keeping.signs key hash w)
        | inr (signature, signed) ↦ rw signed (keeping.signs key hash w)
      ]

  signed-Safe :
      (msg : HttpRequest) (key : Bytes) (skid : Result Bytes) (p : Protocol W)
      → SkidGot e client Later Row Registered keeping msg.id skid p
      → Safe alone (Answer msg key) (signed_steps e c msg key skid) p
  unfolding error_response
  signed-Safe msg key (err x) p got = λ q later holds. inr (ground arith)
  signed-Safe msg key (ok skid) p got = λ q later holds.
      let (r, w) = create_signed_cose e c msg.hash key skid msg.payload q.world in
      let on = create_signed_cose_on msg.hash key skid msg.payload q.world in
      let certified =
        Certified-Later e Registered client Later keeping.keeps_key msg.id skid p.world w
          (keeping.goes_on p.world q.world w later on) got in
      (
        IsCoherent-Later e client Later Row Registered keeping q w holds on,
        on,
        λ q' later' holds'.
            Answer-Later msg key (answer r) (record q { world = w }) q' later'
              (answer_now msg key skid (record q { world = w }) q.world r certified refl),
      )

  pub sign-Safe :
      (msg : HttpRequest) (key : Bytes) (p : Protocol W)
      → Safe alone (Answer msg key) (sign_steps e c msg key) p
  unfolding sign_steps
  sign-Safe msg key p =
      calling-Safe alone (SkidGot e client Later Row Registered keeping msg.id) (Answer msg key)
        (get_skid_steps e msg.id) (signed_steps e c msg key) p
        (get_skid-Safe e client Later Row Registered keeping msg.id p)
        (λ skid q later holds got. signed-Safe msg key skid q got)
