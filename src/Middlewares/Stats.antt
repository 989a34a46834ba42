-- ===== src/Middlewares/Stats.antt =====
-- middlewares/stats.go: the recorder of recent errors. The mutex makes each update one step.
use traefik_release.Base.{ℕ, List, [], ◌∷◌, ltb, leb, if◌then◌else◌, length, take, Text}

-- statsError; the status text is http.StatusText of the code, and is left out.
pub record StatsError : Type 0 where
  pub status_code : ℕ
  pub method : Text
  pub host : Text
  pub path : Text
  pub time : ℕ

-- StatsRecorder; the configured number is at least 0.
pub record StatsRecorder : Type 0 where
  pub num_recent_errors : ℕ
  pub recent_errors : List StatsError

-- NewStatsRecorder
unfoldable pub new_stats_recorder : ℕ → StatsRecorder
new_stats_recorder n = record { num_recent_errors = n; recent_errors = [] }

-- A request as the middleware meets it: what identifies it, the codes that the next handler gives to
-- WriteHeader, and the time at which it is recorded.
pub record Served : Type 0 where
  pub method : Text
  pub host : Text
  pub path : Text
  pub codes : List ℕ
  pub time : ℕ

-- responseRecorder: WriteHeader keeps the code that it is given; 200 is there from the start.
unfoldable pub recorded_code : ℕ → List ℕ → ℕ
recorded_code code [] = code
recorded_code code (c ∷ codes) = recorded_code c codes

abbrev pub error_of : Served → ℕ → StatsError
error_of r code = record {
  status_code = code;
  method = r.method;
  host = r.host;
  path = r.path;
  time = r.time;
}

-- ServeHTTP
unfoldable pub serve : Served → StatsRecorder → StatsRecorder
serve r s =
    let code = recorded_code 200 r.codes in
    let errors = error_of r code ∷ s.recent_errors in
    if leb 400 code
    then (if ltb s.num_recent_errors (length errors)
        then record s { recent_errors = take s.num_recent_errors errors }
        else record s { recent_errors = errors })
    else s

-- Data: a copy of the list.
unfoldable pub stats_data : StatsRecorder → List StatsError
stats_data s = s.recent_errors

unfoldable pub serve_all : List Served → StatsRecorder → StatsRecorder
serve_all [] s = s
serve_all (r ∷ rs) s = serve_all rs (serve r s)
