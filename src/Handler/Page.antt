-- ===== src/Handler/Page.antt =====
-- internal/handler/handler.go: `RootHandler`, the HTML page with all metrics.
use gometrics.Prelude.{String, List, [], ◌∷◌, ◌++◌, Bytes, bytes}
use gometrics.Models.{Int64, Float64}
use gometrics.Http.{Request, Call, set_header, write_header, write}
use gometrics.Storage.File.{MapOrder}
use gometrics.Handler.{Handler, Std, World}

abbrev pub root_page_gauge_head : String
root_page_gauge_head =
    "<!DOCTYPE html>\n<html>\n<head>\n    <title>Metrics</title>\n    <style>\n        body { font-family: Arial, sans-serif; margin: 20px; }\n        table { border-collapse: collapse; width: 100%; max-width: 600px; }\n        th, td { border: 1px solid #ddd; padding: 8px; text-align: left; }\n        th { background-color: #f2f2f2; }\n    </style>\n</head>\n<body>\n    <h1>All Metrics</h1>\n    <h2>Gauge Metrics</h2>\n    <table>\n        <tr><th>Name</th><th>Value</th></tr>"

abbrev pub root_page_counter_head : String
root_page_counter_head =
    "</table>\n    <h2>Counter Metrics</h2>\n    <table>\n        <tr><th>Name</th><th>Value</th></tr>"

abbrev pub root_page_tail : String
root_page_tail = "</table>\n</body>\n</html>"

abbrev pub root_page_no_gauges : String
root_page_no_gauges = "<tr><td colspan=\"2\">No gauge metrics</td></tr>"

abbrev pub root_page_no_counters : String
root_page_no_counters = "<tr><td colspan=\"2\">No counter metrics</td></tr>"

abbrev pub row_open : String
row_open = "<tr><td>"

abbrev pub row_mid : String
row_mid = "</td><td>"

abbrev pub row_close : String
row_close = "</td></tr>"

-- one round of either loop
unfoldable pub row : {V : Type 0} → (V → String) → String × V → Bytes
row format (name, value) =
    bytes row_open ++ (bytes name ++ (bytes row_mid ++ (bytes (format value) ++ bytes row_close)))

rows_from : {V : Type 0} → (V → String) → List (String × V) → Bytes
unfolding row
rows_from format [] = []
rows_from format (e ∷ es) = row format e ++ rows_from format es

-- the rows, or the line that says that there are none
unfoldable pub rows : {V : Type 0} → (V → String) → String → List (String × V) → Bytes
unfolding rows_from
rows format absent [] = bytes absent
rows format absent (e ∷ es) = rows_from format (e ∷ es)

unfoldable pub page : Std → List (String × Float64) → List (String × Int64) → Bytes
unfolding rows
page std gauges counters =
    bytes root_page_gauge_head
    ++ (rows std.format_float root_page_no_gauges gauges
        ++ (bytes root_page_counter_head
            ++ (rows std.format_int root_page_no_counters counters ++ bytes root_page_tail)))

module _ {S D O : Type 0} (h : Handler S D O) (std : Std) (order : MapOrder) where
  unfoldable pub root_handler : Request → World S D O → World S D O × List Call
  unfolding page
  root_handler r w =
      let ((gauges, counters), s) = h.storage.get_all_metrics w.store in
      (
        record w { store = s },
        set_header "Content-Type" "text/html"
            ∷ write_header 200
            ∷ write (page std (order.gauge_range gauges) (order.counter_range counters))
            ∷ [],
      )
