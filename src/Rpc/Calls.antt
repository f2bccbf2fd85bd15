-- ===== src/Rpc/Calls.antt =====
-- What a remote call gives: the bound function's result, through both serializers.
use luce.Prelude.{
  ℕ, suc, ◌^◌, ◌<◌, ◌≡◌, refl, sym, ap, ◌∙◌, false, none, [], ◌++◌, ◌==◌, length, Bytes, codes,
  c_string, ◌+◌, ◌-◌, Outcome, ok, undefined, ◌>>=◌, arith, append-nil, length-append,
}
use luce.Table.{Table, lookup, lookup-insert_self}
use luce.Codec.Serializer.{
  Serializer, of_bytes, append, memory, serialize_number, deserialize_number, take_bytes,
  deserialize_text, str, Serial,
}
use luce.Codec.Serializer.Laws.{
  Addressable, Addressable-first, Addressable-second, reading, past, past-reading, RoundTrips,
  append-append, read_then, deserialize_number-reading, length-memory,
}
use luce.Codec.Serializer.Instances.{text_serial, text_serial-RoundTrips, number_serial}
use luce.Rpc.{
  RpcResponse, serialize_response, deserialize_response, HandleFunc, call_proxy, bind, call_impl,
  on_request, call, net_call, rpc_success, rpc_err_function_not_found,
}

unfoldable pub response_bytes : {T : Type 0} → Serial T → RpcResponse T → Bytes
response_bytes c value =
    memory 2 value.err_code ++ (text_serial.bytes value.err_msg ++ c.bytes value.detail_value)

of_bytes-reading : (s : Bytes) → of_bytes s ≡ reading [] s []
of_bytes-reading s = λ i. record { buffer = sym (append-nil s) i; deserialize_pos = 0 }

past-reading_last : (front s : Bytes) → past [] front s ≡ reading front s []
past-reading_last front s = ap (past [] front) (sym (append-nil s)) ∙ past-reading [] front s []

module _ {T : Type 0} (c : Serial T) (laws : RoundTrips c) where
  serialize_response-append :
      (value : RpcResponse T) (s : Serializer)
      → serialize_response c value s ≡ append (response_bytes c value) s
  unfolding serialize_response serialize_number response_bytes
  serialize_response-append value s =
      ap (λ t. c.serialize value.detail_value t)
        (text_serial-RoundTrips.writes value.err_msg (append (memory 2 value.err_code) s))
      ∙ laws.writes value.detail_value
          (append (text_serial.bytes value.err_msg) (append (memory 2 value.err_code) s))
      ∙ append-append (text_serial.bytes value.err_msg) (c.bytes value.detail_value)
          (append (memory 2 value.err_code) s)
      ∙ append-append (memory 2 value.err_code)
          (text_serial.bytes value.err_msg ++ c.bytes value.detail_value) s

  deserialize_response-reading :
      (value : RpcResponse T) (front rest : Bytes)
      → value.err_code < 256 ^ 2
      → length value.err_msg < 256 ^ 8
      → c.Fits value.detail_value
      → Addressable front (response_bytes c value)
      → deserialize_response c (reading front (response_bytes c value) rest)
        ≡ ok (value, past front (response_bytes c value) rest)
  unfolding deserialize_response response_bytes
  deserialize_response-reading value front rest code msg fits small =
      let head = memory 2 value.err_code in
      let text = text_serial.bytes value.err_msg in
      let detail = c.bytes value.detail_value in
      let later = Addressable-second front head (text ++ detail) small in
      read_then (deserialize_number 2)
        (λ code s1. deserialize_text s1 >>= λ (msg, s2). c.deserialize s2 >>= λ (val, s3).
          ok (record { err_code = code; err_msg = msg; detail_value = val }, s3))
        front head (text ++ detail) rest value.err_code value
        (deserialize_number-reading 2 value.err_code front ((text ++ detail) ++ rest) code
          (Addressable-first front head (text ++ detail) small))
        (read_then deserialize_text
          (λ msg s2. c.deserialize s2 >>= λ (val, s3).
            ok (record { err_code = value.err_code; err_msg = msg; detail_value = val }, s3))
          (front ++ head) text detail rest value.err_msg value
          (text_serial-RoundTrips.reads value.err_msg (front ++ head) (detail ++ rest) msg
            (Addressable-first (front ++ head) text detail later))
          (ap {B = Outcome (RpcResponse T × Serializer)}
            (λ r. r >>= λ (val, s3). ok (
              record { err_code = value.err_code; err_msg = value.err_msg; detail_value = val },
              s3,
            ))
            (laws.reads value.detail_value ((front ++ head) ++ text) rest fits
              (Addressable-second (front ++ head) text detail later))))

-- a reply that starts with an error code is not empty
some_reply : (code : ℕ) (rest : Bytes) → (length (memory 2 code ++ rest) == 0) ≡ false
some_reply code rest = ground (arith, length-append (memory 2 code) rest, length-memory 2 code)

some_size : (name : Bytes) → (length name + 29 == 0) ≡ false
some_size name = ground arith

-- a reply without a value: its reading comes to the value with nothing left
deserialize_response-no_value :
    {T : Type 0} (c : Serial T) (code : ℕ) (msg : Bytes)
    → code < 256 ^ 2
    → length msg < 256 ^ 8
    → length (memory 2 code ++ text_serial.bytes msg) < 2 ^ 31
    → c.deserialize (past (memory 2 code) (text_serial.bytes msg) []) ≡ undefined
    → deserialize_response c (of_bytes (memory 2 code ++ text_serial.bytes msg)) ≡ undefined
unfolding deserialize_response
deserialize_response-no_value c code msg small short few h =
    let all : Addressable [] (memory 2 code ++ text_serial.bytes msg) = omega (arith, few) in
    rw
      (
        deserialize_number-reading 2 code [] (text_serial.bytes msg) small
            (Addressable-first [] (memory 2 code) (text_serial.bytes msg) all),
        past-reading_last (memory 2 code) (text_serial.bytes msg),
        text_serial-RoundTrips.reads msg (memory 2 code) [] short
            (Addressable-second [] (memory 2 code) (text_serial.bytes msg) all),
        h,
      )
      refl

number_past_end :
    (width : ℕ) (front next : Bytes)
    → deserialize_number (suc width) (past front next []) ≡ undefined
unfolding deserialize_number take_bytes
number_past_end width front next =
    ground (arith, length-append front (next ++ []), length-append next [])

module _ {A : Type 0} (args : Serial A) (args_laws : RoundTrips args) where
  request_bytes : Bytes → A → Bytes
  request_bytes name a = text_serial.bytes name ++ args.bytes a

  call-bytes : (name : Bytes) (a : A) → call args name a ≡ request_bytes name a
  unfolding call str request_bytes append
  call-bytes name a =
      ap (λ s. str (args.serialize a s)) (text_serial-RoundTrips.writes name (of_bytes []))
      ∙ ap str (args_laws.writes a (append (text_serial.bytes name) (of_bytes [])))

  -- a request below 2 GiB is read to its end
  request_small :
      (name : Bytes) (a : A)
      → length (call args name a) < 2 ^ 31
      → Addressable [] (request_bytes name a)
  request_small name a few =
      let few' : length (request_bytes name a) < 2 ^ 31 = rw (call-bytes name a) at few in
      omega (arith, few')

  -- the server reads the name, and hands on a serializer that stands at the arguments
  on_request-call :
      (handlers_ : Table HandleFunc) (name : Bytes) (a : A)
      → length name < 256 ^ 8
      → length (call args name a) < 2 ^ 31
      → on_request handlers_ (call args name a) ≡ (
          call_impl handlers_ name (reading (text_serial.bytes name) (args.bytes a) [])
          >>= λ output_serializer. ok output_serializer.buffer)
  unfolding on_request request_bytes
  on_request-call handlers_ name a bound few =
      let all : Addressable [] (text_serial.bytes name ++ args.bytes a) =
        request_small name a few in
      rw
        (
          call-bytes name a,
          text_serial-RoundTrips.reads name [] (args.bytes a) bound
              (Addressable-first [] (text_serial.bytes name) (args.bytes a) all),
          past-reading_last (text_serial.bytes name) (args.bytes a),
        )
        refl

  module _ {R : Type 0} (ret : Serial R) (ret_laws : RoundTrips ret) (initial : R) where
    abbrev pub success : R → RpcResponse R
    success r = record { err_code = rpc_success; err_msg = []; detail_value = r }

    pub reply_is_read :
        (r : R)
        → ret.Fits r
        → length (response_bytes ret (success r)) < 2 ^ 31
        → net_call ret initial
            (length (response_bytes ret (success r)))
            (response_bytes ret (success r))
          ≡ ok (success r, rpc_success)
    unfolding net_call response_bytes
    reply_is_read r fits few =
        rw
          (
            some_reply 0 (text_serial.bytes [] ++ ret.bytes r),
            of_bytes-reading (response_bytes ret (success r)),
            deserialize_response-reading ret ret_laws (success r) [] [] (omega arith) (omega arith)
                fits (omega (arith, few)),
          )
          refl

    call_impl-bind :
        (handlers_ : Table HandleFunc) (name : Bytes) (func : A → Outcome R) (input : Serializer)
        → call_impl (bind args ret name func handlers_) (c_string name) input
          ≡ call_proxy args ret func input (of_bytes [])
    unfolding call_impl bind
    call_impl-bind handlers_ name func input =
        rw (call_impl, lookup-insert_self (c_string name) (call_proxy args ret func) handlers_) refl

    call_proxy-returns :
        (name : Bytes) (func : A → Outcome R) (a : A) (r : R)
        → args.Fits a
        → length (call args name a) < 2 ^ 31
        → func a ≡ ok r
        → call_proxy args ret func
            (reading (text_serial.bytes name) (args.bytes a) [])
            (of_bytes [])
          ≡ ok (append (response_bytes ret (success r)) (of_bytes []))
    unfolding call_proxy request_bytes
    call_proxy-returns name func a r fits few returns =
        let all : Addressable [] (text_serial.bytes name ++ args.bytes a) =
          request_small name a few in
        let behind = Addressable-second [] (text_serial.bytes name) (args.bytes a) all in
        rw (args_laws.reads a (text_serial.bytes name) [] fits behind, returns)
          (ap ok (serialize_response-append ret ret_laws (success r) (of_bytes [])))

    pub on_request-bind :
        (handlers_ : Table HandleFunc) (name : Bytes) (func : A → Outcome R) (a : A) (r : R)
        → c_string name ≡ name
        → length name < 256 ^ 8
        → args.Fits a
        → length (call args name a) < 2 ^ 31
        → func a ≡ ok r
        → on_request (bind args ret name func handlers_) (call args name a)
          ≡ ok (response_bytes ret (success r))
    unfolding append
    on_request-bind handlers_ name func a r plain bound fits few returns =
        rw
          (
            on_request-call (bind args ret name func handlers_) name a bound few,
            ap
                (λ n.
                  call_impl (bind args ret name func handlers_) n
                    (reading (text_serial.bytes name) (args.bytes a) []))
                (sym plain),
            call_impl-bind handlers_ name func (reading (text_serial.bytes name) (args.bytes a) []),
            call_proxy-returns name func a r fits few returns,
          )
          refl

  refusal : Bytes → Bytes
  refusal name =
      memory 2 rpc_err_function_not_found ++ text_serial.bytes (codes "function not bind: " ++ name)

  call_impl-unbound :
      (handlers_ : Table HandleFunc) (name : Bytes) (input : Serializer)
      → lookup name handlers_ ≡ none
      → call_impl handlers_ name input ≡ ok (append (refusal name) (of_bytes []))
  unfolding call_impl refusal serialize_number
  call_impl-unbound handlers_ name input h =
      rw (call_impl, h)
        (ap ok (
          text_serial-RoundTrips.writes (codes "function not bind: " ++ name)
            (append (memory 2 rpc_err_function_not_found) (of_bytes []))
          ∙ append-append (memory 2 rpc_err_function_not_found)
              (text_serial.bytes (codes "function not bind: " ++ name)) (of_bytes [])))

  -- If no function is bound under the name, the reply is the code of a missing function and a message
  -- with its length before it, and no value; the client, which reads a value in any case, reads past
  -- the reply's end where it expects a number: its Call has no defined result. The request and the
  -- reply must be below 2 GiB.
  pub call-unbound :
      (handlers_ : Table HandleFunc) (name : Bytes) (a : A) (width initial : ℕ)
      → length (call args name a) < 2 ^ 31
      → length name < 2 ^ 31 - 29
      → lookup name handlers_ ≡ none
      → (on_request handlers_ (call args name a)
          ≡ ok (
              memory 2 rpc_err_function_not_found
              ++ (memory 8 (length name + 19) ++ (codes "function not bind: " ++ name))))
        × (net_call (number_serial (suc width)) initial (length name + 29) (
              memory 2 rpc_err_function_not_found
              ++ (memory 8 (length name + 19) ++ (codes "function not bind: " ++ name)))
            ≡ undefined)
  unfolding append net_call refusal
  call-unbound handlers_ name a width initial few bound h =
      let msg = codes "function not bind: " ++ name in
      let msg_size : length name + 19 ≡ length msg =
        omega (arith, length-append (codes "function not bind: ") name) in
      let size : length (memory 2 1 ++ text_serial.bytes msg) ≡ length name + 29 = omega (
        arith,
        length-append (memory 2 1) (text_serial.bytes msg),
        length-append (memory 8 (length msg)) msg,
        length-memory 2 1,
        length-memory 8 (length msg),
        msg_size,
      ) in
      (
        rw
            (
              msg_size,
              on_request-call handlers_ name a (omega (arith, bound)) few,
              call_impl-unbound handlers_ name (reading (text_serial.bytes name) (args.bytes a) [])
                  h,
            )
            refl,
        rw
            (
              msg_size,
              some_size name,
              deserialize_response-no_value (number_serial (suc width)) 1 msg (omega arith)
                  (omega (arith, bound, msg_size)) (omega (arith, size, bound))
                  (number_past_end width (memory 2 1) (text_serial.bytes msg)),
            )
            refl,
      )
