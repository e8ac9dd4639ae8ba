-- ===== src/Agent.antt =====
-- ebpf_agent/ebpf.go: the source of the spans. Reading a file and parsing JSON are parameters.
use alma_backend_task.Prelude.{String, List, Result, ok, err, panic, ◌>>=◌}
use alma_backend_task.Models.{RawSpan, RawSpansFile}

pub record EbpfAgent : Type 0 where
  pub data_path : String

unfoldable pub new_ebpf_agent : String → EbpfAgent
new_ebpf_agent data_path = record { data_path = data_path }

-- `fmt.Errorf("reading file: %w", err)` and `fmt.Errorf("parsing JSON: %w", err)`
pub data AgentError (Failure : Type 0) : Type 0 where
  reading_file parsing_json : Failure → AgentError Failure

-- The error, if any, in its wrapper.
abbrev pub wrapped :
    {A Failure : Type 0}
    → (Failure → AgentError Failure)
    → Result Failure A
    → Result (AgentError Failure) A
wrapped wrap (ok a) = ok a
wrapped wrap (err e) = err (wrap e)
wrapped wrap panic = panic

unfoldable pub get_spans :
    {Bytes Failure : Type 0}
    → (String → Result Failure Bytes)
    → (Bytes → Result Failure RawSpansFile)
    → EbpfAgent
    → Result (AgentError Failure) (List RawSpan)
get_spans read_file unmarshal a = do
  contents ← wrapped reading_file (read_file a.data_path)
  spans_file ← wrapped parsing_json (unmarshal contents)
  ok spans_file.spans
