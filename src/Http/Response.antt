-- ===== src/Http/Response.antt =====
-- luce/net/http/http_response.{h,cpp}: `HttpResponse`, which writes its text into one buffer.
-- The order in which the headers' unordered_map is walked is unspecified: it is the argument
-- `walk` of `set_body`. A status code is not negative here.
pub mod Written
use luce.Prelude.{
  ℕ, zero, suc, ◌+◌, ◌/◌, ◌%◌, true, List, [], ◌∷◌, ◌++◌, ◌==◌, ltb, if◌then◌else◌, Bytes, codes,
  same, Outcome, ok, ◌>>=◌,
}
use luce.Decimal.{to_string}
use luce.Table.{Table, insert}
use luce.StringUtil.{split}

pub record HttpResponse : Type 0 where
  pub buffer : Bytes
  pub status_code : ℕ
  pub http_version : Bytes
  pub headers : Table Bytes

unfoldable pub get_code_descript : ℕ → Bytes
get_code_descript status_code =
    if status_code == 100
    then codes "Continue"
    else if status_code == 101
    then codes "Switching Protocols"
    else if status_code == 200
    then codes "OK"
    else if status_code == 201
    then codes "Created"
    else if status_code == 202
    then codes "Accepted"
    else if status_code == 203
    then codes "Non-Authoritative Information"
    else if status_code == 204
    then codes "No Content"
    else if status_code == 205
    then codes "Reset Content"
    else if status_code == 206
    then codes "Partial Content"
    else if status_code == 300
    then codes "Multiple Choices"
    else if status_code == 301
    then codes "Moved Permanently"
    else if status_code == 302
    then codes "Found"
    else if status_code == 303
    then codes "See Other"
    else if status_code == 304
    then codes "Not Modified"
    else if status_code == 305
    then codes "Use Proxy"
    else if status_code == 306
    then codes "Unused"
    else if status_code == 307
    then codes "Temporary Redirect"
    else if status_code == 400
    then codes "Bad Request"
    else if status_code == 401
    then codes "Unauthorized"
    else if status_code == 403
    then codes "Forbidden"
    else if status_code == 404
    then codes "Not Found"
    else if status_code == 405
    then codes "Method Not Allowed"
    else if status_code == 500
    then codes "Internal Server Error"
    else if status_code == 501
    then codes "Not Implemented"
    else if status_code == 502
    then codes "Bad Gateway"
    else if status_code == 503
    then codes "Service Unavailable"
    else if status_code == 504
    then codes "Gateway Time-out"
    else if status_code == 505
    then codes "HTTP Version not supported"
    else codes "Unknow Code or Unsupported now"

-- the loop over the headers
unfoldable pub write_headers : List (Bytes × Bytes) → Bytes → Bytes
write_headers [] buffer = buffer
write_headers ((key, value) ∷ headers) buffer =
    write_headers headers (buffer ++ (key ++ (b':' ∷ (value ++ (b'\r' ∷ b'\n' ∷ [])))))

unfoldable pub set_body : (Table Bytes → List (Bytes × Bytes)) → HttpResponse → Bytes → HttpResponse
set_body walk r body =
    let start =
      r.http_version
      ++ (b' '
          ∷ (to_string r.status_code
              ++ (b' ' ∷ (get_code_descript r.status_code ++ (b'\r' ∷ b'\n' ∷ []))))) in
    let headed = write_headers (walk r.headers) start in
    record r { buffer = ((headed ++ b'\r' ∷ b'\n' ∷ []) ++ body) ++ b'\r' ∷ b'\n' ∷ [] }

unfoldable pub set_status_code : HttpResponse → ℕ → HttpResponse
set_status_code r code = record r { status_code = code }

unfoldable pub set_header : HttpResponse → Bytes → Bytes → HttpResponse
set_header r key value = record r { headers = insert key value r.headers }

unfoldable pub set_http_version : HttpResponse → Bytes → HttpResponse
set_http_version r version = record r { http_version = version }

unfoldable pub clear : HttpResponse → HttpResponse
clear r = record r { buffer = [] }

-- the ladder of `GetFileType` on the text behind the dot
unfoldable pub type_of_extension : Bytes → Bytes
type_of_extension ext =
    if same ext (codes "html")
    then codes "text/html; charset=utf-8"
    else if same ext (codes "jpg")
    then codes "image/jpeg"
    else if same ext (codes "gif")
    then codes "image/gif"
    else if same ext (codes "png")
    then codes "image/png"
    else if same ext (codes "css")
    then codes "text/css"
    else if same ext (codes "au")
    then codes "audio/basic"
    else if same ext (codes "wav")
    then codes "audio/wav"
    else if same ext (codes "avi")
    then codes "video/x-msvideo"
    else if same ext (codes "mov")
    then codes "video/quicktime"
    else if same ext (codes "mpeg")
    then codes "video/mpeg"
    else if same ext (codes "vrml")
    then codes "model/vrml"
    else if same ext (codes "midi")
    then codes "audio/midi"
    else if same ext (codes "mp3")
    then codes "audio/mpeg"
    else if same ext (codes "ogg")
    then codes "application/ogg"
    else if same ext (codes "pac")
    then codes "application/x-ns-proxy-autoconfig"
    else []

-- `type.size() != 2`
unfoldable pub file_type_of : List Bytes → Bytes
file_type_of (name ∷ ext ∷ []) = type_of_extension ext
file_type_of _ = codes "text/plain;charset=utf-8"

unfoldable pub get_file_type : Bytes → Outcome Bytes
get_file_type file_name = do type_ ← split file_name (b'.' ∷ []) true; ok (file_type_of type_)
