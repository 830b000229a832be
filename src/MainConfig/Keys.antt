-- ===== src/MainConfig/Keys.antt =====
-- MainConfig.py, the tables `_env_vars` and `_yaml_keys`: where a setting may come from.
use free_tak_server.Base.{String, false, [], ◌∷◌}
use free_tak_server.Base.Dict.{Dict}
use free_tak_server.MainConfig.Values.{Ty, str_type, int_type, Value, text, integer}

-- What a target of `_yaml_keys` is: the name of a setting, or a dictionary with a default and a type.
pub data Target : Type 0 where
  named : String → Target
  inline : Value → Ty → Target

-- `_env_vars`
unfoldable pub _env_vars : Dict String
_env_vars =
    ("FTS_SECRET_KEY", "SecretKey")
    ∷ ("FTS_NODE_ID", "nodeID")
    ∷ ("FTS_OPTIMIZE_API", "OptimizeAPI")
    ∷ ("FTS_DATA_RECEPTION_BUFFER", "DataReceptionBuffer")
    ∷ ("FTS_MAX_RECEPTION_TIME", "MaxReceptionTime")
    ∷ ("FTS_MAINLOOP_DELAY", "MainLoopDelay")
    ∷ ("FTS_COT_PORT", "CoTServicePort")
    ∷ ("FTS_SSLCOT_PORT", "SSLCoTServicePort")
    ∷ ("FTS_DP_ADDRESS", "DataPackageServiceDefaultIP")
    ∷ ("FTS_USER_ADDRESS", "UserConnectionIP")
    ∷ ("FTS_API_PORT", "APIPort")
    ∷ ("FTS_CLI_WHITELIST", "AllowCLIIPs")
    ∷ ("FTS_FED_PORT", "FederationPort")
    ∷ ("FTS_API_ADDRESS", "APIIP")
    ∷ ("FTS_COT_TO_DB", "SaveCoTToDB")
    ∷ ("FTS_DB_PATH", "DBFilePath")
    ∷ ("FTS_MAINPATH", "MainPath")
    ∷ ("FTS_CERTS_PATH", "certsPath")
    ∷ ("FTS_EXCHECK_PATH", "ExCheckMainPath")
    ∷ ("FTS_EXCHECK_TEMPLATE_PATH", "ExCheckFilePath")
    ∷ ("FTS_EXCHECK_CHECKLIST_PATH", "ExCheckChecklistFilePath")
    ∷ ("FTS_DATAPACKAGE_PATH", "DataPackageFilePath")
    ∷ ("FTS_LOGFILE_PATH", "LogFilePath")
    ∷ ("FTS_FED_PASSWORD", "federationKeyPassword")
    ∷ ("FTS_SERVER_KEYDIR", "keyDir")
    ∷ ("FTS_SERVER_PEMDIR", "pemDir")
    ∷ ("FTS_TESTCLIENT_PEMDIR", "testPem")
    ∷ ("FTS_TESTCLIENT_KEYDIR", "testKey")
    ∷ ("FTS_UNENCRYPTED_KEYDIR", "unencryptedKey")
    ∷ ("FTS_SERVER_P12DIR", "p12Dir")
    ∷ ("FTS_CADIR", "CA")
    ∷ ("FTS_CAKEYDIR", "CAkey")
    ∷ ("FTS_FEDERATION_CERTDIR", "federationCert")
    ∷ ("FTS_FEDERATION_KEYDIR", "federationKey")
    ∷ ("FTS_FEDERATION_KEYPASS", "federationKeyPassword")
    ∷ ("FTS_CLIENT_CERT_PASSWORD", "password")
    ∷ ("FTS_WEBSOCKET_KEY", "websocketkey")
    ∷ ("FTS_CRLDIR", "CRLFile")
    ∷ ("FTS_CONNECTION_MESSAGE", "ConnectionMessage")
    ∷ ("FTS_DATABASE_TYPE", "DataBaseType")
    ∷ ("FTS_CLIENT_PACKAGES_PATH", "ClientPackages")
    ∷ ("FTS_NUM_ROUTING_WORKERS", "NumRoutingWorkers")
    ∷ ("FTS_ROUTING_PROXY_SUBSCRIBE_PORT", "RoutingProxySubscriberPort")
    ∷ ("FTS_ROUTING_PROXY_SUBSCRIBE_IP", "RoutingProxySubscriberIP")
    ∷ ("FTS_ROUTING_PROXY_PUBLISHER_PORT", "RoutingProxyPublisherPort")
    ∷ ("FTS_ROUTING_PROXY_PUBLISHER_IP", "RoutingProxyPublisherIP")
    ∷ ("FTS_ROUTING_PROXY_SERVER_PORT", "RoutingProxyRequestServerPort")
    ∷ ("FTS_ROUTING_PROXY_SERVER_IP", "RoutingProxyRequestServerIP")
    ∷ ("FTS_CORE_COMPONENTS_PATH", "CoreComponentsPath")
    ∷ ("FTS_CORE_COMPONENTS_IMPORT_ROOT", "CoreComponentsImportRoot")
    ∷ ("FTS_INTERNAL_COMPONENTS_PATH", "InternalComponentsPath")
    ∷ ("FTS_INTERNAL_COMPONENTS_IMPORT_ROOT", "InternalComponentsImportRoot")
    ∷ ("FTS_EXTERNAL_COMPONENTS_PATH", "ExternalComponentsPath")
    ∷ ("FTS_EXTERNAL_COMPONENTS_IMPORT_ROOT", "ExternalComponentsImportRoot")
    ∷ ("FTS_INTEGRATION_MANAGER_PULLER_PORT", "IntegrationManagerPullerPort")
    ∷ ("FTS_INTEGRATION_MANAGER_PULLER_ADDRESS", "IntegrationManagerPullerAddress")
    ∷ ("FTS_INTEGRATION_MANAGER_PUBLISHER_PORT", "IntegrationManagerPublisherPort")
    ∷ ("FTS_INTEGRATION_MANAGER_PUBLISHER_ADDRESS", "IntegrationManagerPublisherAddress")
    ∷ ("FTS_EMERGENCY_RADIUS", "EmergencyRadius")
    ∷ ("FTS_PERSISTENCE_PATH", "persistencePath")
    ∷ ("FTS_LOG_LEVEL", "LogLevel")
    ∷ []

-- `_yaml_keys`
unfoldable pub _yaml_keys : Dict (Dict Target)
_yaml_keys =
    (
      "System",
      ("FTS_NODE_ID", named "nodeID")
          ∷ ("FTS_MAINLOOP_DELAY", named "MainLoopDelay")
          ∷ ("FTS_CONNECTION_MESSAGE", named "ConnectionMessage")
          ∷ ("FTS_DATABASE_TYPE", named "DataBaseType")
          ∷ ("FTS_OPTIMIZE_API", named "OptimizeAPI")
          ∷ ("FTS_SECRET_KEY", named "SecretKey")
          ∷ ("FTS_DATA_RECEPTION_BUFFER", named "DataReceptionBuffer")
          ∷ ("FTS_MAX_RECEPTION_TIME", named "MaxReceptionTime")
          ∷ ("FTS_EMERGENCY_RADIUS", named "EmergencyRadius")
          ∷ [],
    )
    ∷ (
      "Addresses",
      ("FTS_COT_PORT", named "CoTServicePort")
          ∷ ("FTS_SSLCOT_PORT", named "SSLCoTServicePort")
          ∷ ("FTS_DP_ADDRESS", named "DataPackageServiceDefaultIP")
          ∷ ("FTS_USER_ADDRESS", named "UserConnectionIP")
          ∷ ("FTS_API_PORT", named "APIPort")
          ∷ ("FTS_FED_PORT", named "FederationPort")
          ∷ ("FTS_API_ADDRESS", named "APIIP")
          ∷ ("FTS_CLI_WHITELIST", named "AllowCLIIPs")
          ∷ ("NumRoutingWorkers", inline (integer false 3) int_type)
          ∷ ("RoutingProxySubscriberPort", inline (integer false 19030) int_type)
          ∷ ("RoutingProxyPublisherPort", inline (integer false 19032) int_type)
          ∷ ("RoutingProxyRequestServerPort", inline (integer false 19031) int_type)
          ∷ ("RoutingProxySubscriberIP", inline (text "127.0.0.1") str_type)
          ∷ ("RoutingProxyPublisherIP", inline (text "127.0.0.1") str_type)
          ∷ ("RoutingProxyRequestServerIP", inline (text "127.0.0.1") str_type)
          ∷ ("FTS_INTEGRATION_MANAGER_PULLER_PORT", named "IntegrationManagerPullerPort")
          ∷ ("FTS_INTEGRATION_MANAGER_PULLER_ADDRESS", named "IntegrationManagerPullerAddress")
          ∷ ("FTS_INTEGRATION_MANAGER_PUBLISHER_PORT", named "IntegrationManagerPublisherPort")
          ∷ (
            "FTS_INTEGRATION_MANAGER_PUBLISHER_ADDRESS",
            named "IntegrationManagerPublisherAddress",
          )
          ∷ [],
    )
    ∷ (
      "Filesystem",
      ("FTS_PERSISTENCE_PATH", named "persistencePath")
          ∷ ("FTS_COT_TO_DB", named "SaveCoTToDB")
          ∷ ("FTS_DB_PATH", named "DBFilePath")
          ∷ ("FTS_MAINPATH", named "MainPath")
          ∷ ("FTS_CERTS_PATH", named "certsPath")
          ∷ ("FTS_EXCHECK_PATH", named "ExCheckMainPath")
          ∷ ("FTS_EXCHECK_TEMPLATE_PATH", named "ExCheckFilePath")
          ∷ ("FTS_EXCHECK_CHECKLIST_PATH", named "ExCheckChecklistFilePath")
          ∷ ("FTS_DATAPACKAGE_PATH", named "DataPackageFilePath")
          ∷ ("FTS_LOGFILE_PATH", named "LogFilePath")
          ∷ ("FTS_CLIENT_PACKAGES_PATH", named "ClientPackages")
          ∷ ("FTS_CORE_COMPONENTS_PATH", named "CoreComponentsPath")
          ∷ ("FTS_CORE_COMPONENTS_IMPORT_ROOT", named "CoreComponentsImportRoot")
          ∷ ("FTS_INTERNAL_COMPONENTS_PATH", named "InternalComponentsPath")
          ∷ ("FTS_INTERNAL_COMPONENTS_IMPORT_ROOT", named "InternalComponentsImportRoot")
          ∷ ("FTS_EXTERNAL_COMPONENTS_PATH", named "ExternalComponentsPath")
          ∷ ("FTS_EXTERNAL_COMPONENTS_IMPORT_ROOT", named "ExternalComponentsImportRoot")
          ∷ ("FTS_LOG_LEVEL", named "LogLevel")
          ∷ [],
    )
    ∷ (
      "Certs",
      ("FTS_SERVER_KEYDIR", named "keyDir")
          ∷ ("FTS_SERVER_PEMDIR", named "pemDir")
          ∷ ("FTS_TESTCLIENT_PEMDIR", named "testPem")
          ∷ ("FTS_TESTCLIENT_KEYDIR", named "testKey")
          ∷ ("FTS_UNENCRYPTED_KEYDIR", named "unencryptedKey")
          ∷ ("FTS_SERVER_P12DIR", named "p12Dir")
          ∷ ("FTS_CADIR", named "CA")
          ∷ ("FTS_CAKEYDIR", named "CAkey")
          ∷ ("FTS_FEDERATION_CERTDIR", named "federationCert")
          ∷ ("FTS_FEDERATION_KEYDIR", named "federationKey")
          ∷ ("FTS_FEDERATION_KEYPASS", named "federationKeyPassword")
          ∷ ("FTS_CLIENT_CERT_PASSWORD", named "password")
          ∷ ("FTS_WEBSOCKET_KEY", named "websocketkey")
          ∷ ("FTS_CRLDIR", named "CRLFile")
          ∷ [],
    )
    ∷ []
