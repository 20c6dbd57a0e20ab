-- ===== src/CodeGen/Scripts.antt =====
-- gui/web/src/components/code-gen-dialog.tsx: the snippets for Python (`genPython`) and Go (`genGo`).
use reqlet.Common.{String, ◌<>◌, Option, List, [], ◌∷◌, ◌++◌, map, if◌then◌else◌, truthy}
use mathlib.Core.Option
use reqlet.Types.Request.{HttpMethod, RequestState}
use reqlet.CodeGen.{
  Headers, build_final_url, all_headers, body_string, raw_content_type_header, method_text,
  join_lines,
}

-- `req.method.toLowerCase()`
abbrev lower_method : HttpMethod → String
lower_method HttpMethod.get = "get"
lower_method HttpMethod.post = "post"
lower_method HttpMethod.put = "put"
lower_method HttpMethod.patch = "patch"
lower_method HttpMethod.delete = "delete"
lower_method HttpMethod.options = "options"
lower_method HttpMethod.head = "head"

abbrev python_header : String × String → String
python_header (k, v) = "    \"" <> (k <> ("\": \"" <> (v <> "\",")))

abbrev python_headers : Headers → List String
python_headers [] = "headers = {}" ∷ []
python_headers (h ∷ hs) = "headers = {" ∷ (map python_header (h ∷ hs) ++ ("}" ∷ []))

abbrev python_data : String → List String
python_data body = if truthy body then ("data = '" <> (body <> "'")) ∷ [] else []

abbrev python_arguments : String → String
python_arguments body =
    if truthy body then "url, headers=headers, data=data" else "url, headers=headers"

abbrev python_lines : RequestState → String → String → Headers → List String
python_lines req url body headers =
    ""
    ∷ (("url = \"" <> (url <> "\""))
        ∷ (python_headers headers
            ++ (python_data body
                ++ (""
                    ∷ (("response = requests."
                          <> (lower_method req.method <> ("(" <> (python_arguments body <> ")"))))
                        ∷ ("print(response.status_code)" ∷ ("print(response.text)" ∷ [])))))))

unfoldable pub gen_python : (String → Option String) → RequestState → Option String
unfolding build_final_url all_headers body_string
gen_python btoa req =
    Option.map
      (λ headers. join_lines "\n" "import requests" (
        python_lines req (build_final_url req.url req.params) (body_string req)
          (headers ++ raw_content_type_header req)))
      (all_headers btoa req)

abbrev go_header : String × String → String
go_header (k, v) = "\treq.Header.Set(\"" <> (k <> ("\", \"" <> (v <> "\")")))

abbrev go_request : RequestState → String → String → String
go_request req url body =
    "\treq, _ := http.NewRequest(\""
    <> (method_text req.method <> ("\", \"" <> (url <> ("\", " <> (body <> ")")))))

abbrev go_body : RequestState → String → String → List String
go_body req url body =
    if truthy body
    then ("\tbody := strings.NewReader(`" <> (body <> "`)")) ∷ (go_request req url "body" ∷ [])
    else go_request req url "nil" ∷ []

abbrev go_imports : String → List String
go_imports body =
    ""
    ∷ ("import ("
        ∷ ("\t\"fmt\""
            ∷ ("\t\"io\""
                ∷ ("\t\"net/http\""
                    ∷ ((if truthy body then "\t\"strings\"" else "")
                        ∷ (")" ∷ ("" ∷ ("func main() {" ∷ []))))))))

abbrev go_end : List String
go_end =
    ""
    ∷ ("\tclient := &http.Client{}"
        ∷ ("\tresp, err := client.Do(req)"
            ∷ ("\tif err != nil { panic(err) }"
                ∷ ("\tdefer resp.Body.Close()"
                    ∷ ("\trespBody, _ := io.ReadAll(resp.Body)"
                        ∷ ("\tfmt.Println(string(respBody))" ∷ ("}" ∷ [])))))))

unfoldable pub gen_go : (String → Option String) → RequestState → Option String
unfolding build_final_url all_headers body_string
gen_go btoa req =
    Option.map
      (λ headers. join_lines "\n" "package main" (
        go_imports (body_string req)
        ++ (go_body req (build_final_url req.url req.params) (body_string req)
            ++ (map go_header (headers ++ raw_content_type_header req) ++ go_end))))
      (all_headers btoa req)
